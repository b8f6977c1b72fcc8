-- ===== src/ThreadPool.antt =====
-- potato_old/threadPool.c and threadPool.h.
pub mod TaskQueue
pub mod WorkerList
pub mod Pool
pub mod System
mod Tests
