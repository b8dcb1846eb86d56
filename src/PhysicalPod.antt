-- ===== src/PhysicalPod.antt =====
-- pkg/syncer/bottomup/pod/physical_pod_controller.go: the controller that copies the state of a
-- physical pod to its virtual pod, and deletes a physical pod that has lost it.
pub mod Defs
pub mod Sync
pub mod Secrets
pub mod Controller
