-- ===== src/Network/Examples.antt =====
-- The network of core/src/network on concrete links and topologies, with whole numbers as doubles.
mod Links
mod Topologies
