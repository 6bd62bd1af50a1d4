-- ===== src/Rdma.antt =====
-- The library under rdma/: one child module for each header.
pub mod Types
pub mod Config
pub mod Device
pub mod Logger
pub mod QueuePair
pub mod EventChannel
pub mod CompletionQueue
pub mod Heap
pub mod MemoryRegion
pub mod BufferPool
pub mod Connection
pub mod Handshake
pub mod Metrics
pub mod TransportRdma
pub mod KeyValue
pub mod TaskMessage
pub mod ResultMessage
pub mod Fabric
pub mod Peers
pub mod RdmaClient
pub mod RdmaServer
pub mod WorkerSession
pub mod Poller
