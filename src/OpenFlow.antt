-- ===== src/OpenFlow.antt =====
-- controllers/openflow: the flows of a node's bridge, computed from the cluster's objects.
pub mod Legible
pub mod Kube
pub mod Config
pub mod Bridge
pub mod Switch
pub mod Policy
pub mod Ovs
pub mod PortCache
pub mod Controller
pub mod Start
pub mod Session
pub mod Tests
