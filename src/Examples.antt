-- ===== src/Examples.antt =====
-- The example programs under rdma/examples.
pub mod PingPong
pub mod Demos
