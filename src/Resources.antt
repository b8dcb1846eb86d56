-- ===== src/Resources.antt =====
-- pkg/syncer/bottomup/node/physical_node_controller.go: the resources that a virtual node offers.
-- `Quantities` is k8s.io/apimachinery's resource.Quantity, which the source only calls: its
-- operations, and what its documentation says of them. A quantity is a fixed-point number, and
-- `nano` reads it in units of 10⁻⁹.
pub mod Quantity
pub mod Usage
pub mod Limits
pub mod Available
