-- ===== src/Tests.antt =====
-- Concrete runs of the program's parts.
pub mod Data
pub mod Messages
pub mod Exchange
pub mod Transport
pub mod Memory
pub mod Queues
pub mod Worker
pub mod Http
pub mod Node
pub mod History
pub mod Programs
pub mod MultiConn
pub mod Process
