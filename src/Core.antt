-- ===== src/Core.antt =====
-- lib/hope_thread/core
pub mod ThreadId
