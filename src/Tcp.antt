-- ===== src/Tcp.antt =====
-- The TCP endpoint: core/src/network/transport/tcp and core/include/network/transport/tcp.
pub mod StateMachine
pub mod Segment
pub mod SendBuffer
pub mod ReceiveBuffer
pub mod LossDetector
pub mod Timer
pub mod Congestion
pub mod Connection
pub mod Session
pub mod Listener
mod Examples
