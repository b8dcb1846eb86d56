-- ===== src/Policy.antt =====
-- api/v1beta1/resourceleasingpolicy_types.go: when a leasing policy is active, and what
-- pkg/syncer/bottomup/rlp/resourceleasingpolicy_controller.go accepts as a policy.
-- Times of day are byte strings, as Go compares them; names of days are texts.
pub mod TimeOfDay
pub mod Windows
pub mod Validation
