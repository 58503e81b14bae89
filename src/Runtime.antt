-- ===== src/Runtime.antt =====
-- lib/hope_thread/runtime: what runs work on threads.
pub mod Worker
pub mod ThreadPool
