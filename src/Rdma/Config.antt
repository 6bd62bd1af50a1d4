-- ===== src/Rdma/Config.antt =====
-- rdma/include/rdma/config.h and rdma/src/config.cpp: the configuration records with the
-- values of their default initialisers.
use rdma_ai_platform.Common.{ℕ, ◌*◌, ◌++◌}
use rdma_ai_platform.Text.Decimal.{to_string}
use rdma_ai_platform.Text.{Text, codes}

pub record DeviceConfig : Type 0 where
  pub name : Text
  pub port : ℕ

pub record CompletionQueueConfig : Type 0 where
  pub depth : ℕ

pub record BufferPoolConfig : Type 0 where
  pub buffers : ℕ
  pub buffer_size : ℕ

pub record TransportConfig : Type 0 where
  pub backend_name : Text
  pub mailbox_capacity : ℕ

pub record ServerConfig : Type 0 where
  pub node_id : Text
  pub listen_address : Text

pub record ClientConfig : Type 0 where
  pub node_id : Text
  pub server_node : Text

pub record WorkerSessionConfig : Type 0 where
  pub node_id : Text
  pub buffer_pool : BufferPoolConfig
  pub completion_queue : CompletionQueueConfig

pub record RdmaConfig : Type 0 where
  pub device : DeviceConfig
  pub buffer_pool : BufferPoolConfig
  pub completion_queue : CompletionQueueConfig
  pub transport : TransportConfig

unfoldable pub default_rdma_config : RdmaConfig
default_rdma_config = record {
  device = record { name = codes "loopback0"; port = 1 };
  buffer_pool = record { buffers = 8; buffer_size = 64 * 1024 };
  completion_queue = record { depth = 1024 };
  transport = record { backend_name = codes "in-memory-rdma"; mailbox_capacity = 4096 };
}

unfoldable pub summarize : RdmaConfig → Text
summarize c =
    codes "device="
    ++ (c.device.name
        ++ (codes ":"
            ++ (to_string c.device.port
                ++ (codes ", cq_depth="
                    ++ (to_string c.completion_queue.depth
                        ++ (codes ", buffers="
                            ++ (to_string c.buffer_pool.buffers
                                ++ (codes ", buffer_size="
                                    ++ (to_string c.buffer_pool.buffer_size
                                        ++ (codes ", backend=" ++ c.transport.backend_name))))))))))
