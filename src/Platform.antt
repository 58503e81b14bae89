-- ===== src/Platform.antt =====
-- lib/hope_thread/platform: what asks the operating system.
pub mod SharedMemory
pub mod FileMapping
