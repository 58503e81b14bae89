-- ===== src/Queue.antt =====
-- lib/hope_thread/containers/queue
pub mod Destroy
pub mod Slots
pub mod MpmcBounded
pub mod SpscBounded
pub mod MpscBounded
pub mod MpscOverlap
pub mod SpmcOverlap
pub mod MpscLinked
pub mod MpscBuffered
pub mod SpscLinked
pub mod Sutter
pub mod SpmcMessage
pub mod SpmcBytes
