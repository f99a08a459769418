-- ===== src/Algorithms.antt =====
-- core/algorithms: rewritings of one node. An algorithm has a test whether it applies, and an action
-- that gives whether it changed anything and what stands in the place of the node.
pub mod FlattenSum
pub mod Distribute
pub mod CollectTerms
pub mod SortSum
pub mod Wrap
mod Tests
