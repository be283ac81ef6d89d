-- ===== src/Throughput.antt =====
-- rpc_throughput.cpp: the program that times RPC calls.
pub mod Arguments
pub mod Specs
pub mod Statistics
pub mod Output
pub mod Runs
