-- ===== src/VirtualPod.antt =====
-- pkg/syncer/topdown/pod: virtual pods, and the physical pods that run for them.
pub mod Defs
pub mod Metadata
pub mod Spec
pub mod Tokens
pub mod Reasons
pub mod Resources
pub mod Dependents
pub mod PodSpec
pub mod Build
pub mod Checks
pub mod Remove
pub mod Create
pub mod Allowed
pub mod Controller
pub mod Whole
