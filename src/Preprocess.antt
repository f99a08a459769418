-- ===== src/Preprocess.antt =====
-- core/PreProcessor.hh, core/PreProcessor.cc: from infix notation to the prefix text that the parser
-- reads.
pub mod Tokens
pub mod Unwind
pub mod Scan
pub mod Run
pub mod Brackets
mod Tests
