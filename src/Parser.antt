-- ===== src/Parser.antt =====
-- core/Parser.hh, core/Parser.cc: from a text to an expression tree.
pub mod State
pub mod Machine
pub mod Text
pub mod Reach
pub mod Read
pub mod Group
pub mod RoundTrip
mod Tests
pub mod BareLink
pub mod Input
