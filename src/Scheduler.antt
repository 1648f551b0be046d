-- ===== src/Scheduler.antt =====
-- proxy/src/scheduler: the request queue, the concurrency gate, and their interleavings.
pub mod Queue
pub mod Resolver
pub mod Gate
