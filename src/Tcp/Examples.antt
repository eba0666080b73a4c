-- ===== src/Tcp/Examples.antt =====
-- The endpoint of core/src/network/transport/tcp on concrete connections.
mod Fractions
mod Endpoints
mod Transfers
mod Arrivals
mod Openings
mod Algorithms
