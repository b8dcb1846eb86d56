-- ===== src/Node.antt =====
-- pkg/syncer/bottomup/node: virtual nodes, made and unmade for physical nodes.
pub mod Defs
pub mod Calls
pub mod Evict
pub mod Deletion
pub mod Merge
pub mod Selection
pub mod Taints
pub mod Windows
pub mod Expected
