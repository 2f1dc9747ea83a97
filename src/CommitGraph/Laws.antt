-- ===== src/CommitGraph/Laws.antt =====
-- What the graph of the commits guarantees.
pub mod Spots
pub mod Counts
pub mod Columns
pub mod Nodes
