-- ===== src/Network.antt =====
-- The network below TCP: core/src/network and core/include/network.
pub mod Link
pub mod Node
pub mod Topology
pub mod Packet
pub mod Routing
mod Examples
