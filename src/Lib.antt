-- ===== src/Lib.antt =====
-- A model of the C++ part of the RDMA AI platform: the library under rdma/, which moves tasks and
-- results between nodes through an in-memory transport, and the worker process under worker/, which
-- receives tasks over TCP, executes them on a pool of threads and reports to the scheduler.
--
-- Parts and files. A method of a class is a function of the same name in snake case that takes the
-- object and returns the new object with the method's result; a default constructor is a constant.
--   Common, Text, Assoc, OrderedMap, Bounded: Booleans, lists and the integers; strings as lists of
--     bytes with the searches that the program makes (find, rfind, substr, getline, to_string);
--     unordered_map and set as association lists; std::map as a list in the order of its keys; the
--     queue that drops its oldest entry, which the completion queue and the mailboxes share.
--   Rdma/Types, Rdma/Config: rdma/include/rdma/types.h, config.h, rdma/src/config.cpp.
--   Rdma/QueuePair, Rdma/Connection, Rdma/Handshake: queue_pair, connection and handshake, the way
--     from a fresh queue pair to one that may send.
--   Rdma/EventChannel, Rdma/CompletionQueue: event_channel and completion_queue.
--   Rdma/Heap, Rdma/MemoryRegion, Rdma/BufferPool: the shared buffers behind ByteBufferPtr,
--     memory_region and buffer_pool.
--   Rdma/Metrics: metrics. Rdma/Poller: poller.
--   Rdma/TransportRdma: transport_rdma, the broker with its mailboxes. Rdma/TransportRdma/Mailbox is
--     its abstract view: a list of messages for each node.
--   Rdma/KeyValue, Rdma/TaskMessage, Rdma/ResultMessage: task_message.h and result_message.h.
--   Rdma/Fabric, Rdma/Peers, Rdma/RdmaClient, Rdma/RdmaServer, Rdma/WorkerSession: rdma_client,
--     rdma_server and worker_session. They share the transport, the buffers, the channels and the
--     clock, which are one value (Fabric) that a call takes and returns.
--   Worker/Task, Worker/TaskQueue, Worker/Executor: worker/include/task.h, worker/src/task_queue.cpp,
--     worker/src/executor.cpp and worker/mock/fake_model.cpp.
--   Worker/ThreadPool: worker/runtime/thread_pool.cpp.
--   Worker/TcpTransport: worker/src/transport_tcp.cpp.
--   Worker/Timer: worker/runtime/timer.cpp.
--   Worker/Config, Worker/Node, Worker/WorkerNode: worker/src/worker_node.cpp, the loading of the
--     configuration, the path of a task through the worker, and its starts and stops.
--   Worker/SchedulerClient, Worker/Http: worker/src/scheduler_client.cpp, its texts and postJSON.
--   Worker/Main, Worker/Logger: worker/main.cpp with WorkerNode::run, and worker/src/logger.cpp.
--   Rdma/Device, Rdma/Logger: device, context and protection_domain, and logger.
--   Prototype: the older runtime over the transport, worker/model/tensor.cpp, worker/task/task.cpp and
--     worker/runtime/worker_runtime.cpp.
--   Examples: rdma/examples, what each main calls and returns.
--   Benchmarks: rdma/benchmark and benchmark. Benchmarks/Transfer has the latency and throughput
--     programs, Benchmarks/MultiConn the one with several connections, Benchmarks/TcpCompare
--     tcp_compare.cpp on the results of its system calls.
--   Subsequence: lists with entries struck out, of which claims about order speak.
--   Tests: concrete runs.
--
-- Threads. What a thread does while it holds a mutex is one step, and a wait on a condition is the
-- step at which it ends. Claims about threads hold for every sequence of such steps.
--
-- Numbers. Sizes and counters are natural numbers; where the source counts in 32 or 64 bits, the
-- wrap-around is written out. No function needs fuel: every loop follows a list or a counter, and a
-- loop over a system call follows the list of the answers that the call gives.
--
-- The arithmetic on floats, of which only Tensor::FillRamp makes use, is a record that the model of it
-- takes; a float is a pattern of 32 bits.
--
-- Not modelled: the scheduler (Go), reached over HTTP; the failure to make the thread of the task server
-- or of the timer; a lack of memory; what the examples and benchmarks print and the times they take.
pub mod Common
pub mod Text
pub mod Assoc
pub mod Bounded
pub mod Subsequence
pub mod OrderedMap
pub mod Rdma
pub mod Worker
pub mod Prototype
pub mod Examples
pub mod Benchmarks
pub mod Tests
