-- ===== src/Graph.antt =====
-- src/graph.rs: the token graph and the search for arbitrage cycles.
pub mod Library
pub mod Cycles
pub mod Build
