-- ===== src/Sync.antt =====
-- lib/hope_thread/synchronization: the locks and the back-off.
pub mod Spinlock
pub mod RwSpinlock
pub mod RecursiveSpinlock
pub mod RecursiveRwSpinlock
pub mod ContentionFree
pub mod SeqLock
pub mod ObjectSafe
pub mod SharedObject
pub mod Backoff
