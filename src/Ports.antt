-- ===== src/Ports.antt =====
-- pkg/syncer/bottomup/node/physical_node_controller.go: the cache of proxier ports, its two maps
-- kept under one mutex: InitAllocatedPortsCache, allocateProxierPort, releaseProxierPort and
-- hashString. A port is answered as a number; the source prints it by strconv.Itoa.
pub mod Probe
pub mod Cache
pub mod Init
