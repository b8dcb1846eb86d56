-- ===== src/Synced.antt =====
-- pkg/syncer/topdown/common/common.go: resources that are synchronised to a physical cluster.
pub mod Marks
pub mod Physical
pub mod Resource
pub mod Removal
pub mod Roundtrip
