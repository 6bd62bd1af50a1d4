-- ===== src/Benchmarks.antt =====
-- The benchmark programs under benchmark and rdma/benchmark.
pub mod Transfer
pub mod TcpCompare
pub mod MultiConn
