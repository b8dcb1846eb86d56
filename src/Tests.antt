-- ===== src/Tests.antt =====
-- Runs of the definitions, and the theorems at concrete inputs.
mod Policy
mod Ports
mod Resources
mod PhysicalPod
mod Node
mod Windows
mod Synced
mod VirtualPod
mod TokenManager
