-- ===== src/Sync/ContentionFree.antt =====
-- `contention_free_rw_lock` of lib/hope_thread/synchronization/contention_free_rw_lock.h: a counter of
-- readers for each slot, and a flag for the writer, who waits until every counter is zero.
mod Invariant
pub mod Safety
pub mod Writers
mod Tests
use hope_threading.Prelude.{ℕ, ◌+◌, ◌-◌, ◌%◌, ◌^◌, min, Bool, true, false, ltb, ◌==◌, if◌then◌else◌}
use hope_threading.Threads.{update}

-- `m_write_lock`, and the counters of `m_read_lock`, which are `int`s
pub record Lock : Type 0 where
  pub write_lock : Bool
  pub locked : ℕ → ℕ

-- Where a thread stands. A reader carries its slot; a writer carries what it expects to find in the
-- flag, `lock_ex`, or the slot that it looks at next.
pub data Place : Type 0 where
  idle : Place
  shared_count : ℕ → Place
  shared_check : ℕ → Place
  shared_undo : ℕ → Place
  shared_wait : ℕ → Place
  reading : ℕ → Place
  exclusive_exchange : Bool → Place
  exclusive_scan : ℕ → Place
  writing : Place

-- What an idle thread calls next. `get_proc_id` gives the processor that a reader runs on.
pub data Call : Type 0 where
  lock_shared : ℕ → Call
  lock_exclusive : Call

abbrev same : Bool → Bool → Bool
same true true = true
same false false = true
same _ _ = false

module _ (slots : ℕ) where
  -- `std::min((int)get_proc_id(), (int)MaxProcNumber - 1)`
  enter : Call → Place
  enter (lock_shared proc) = shared_count (min proc (slots - 1))
  enter lock_exclusive = exclusive_exchange false

  -- One round of the first loop of `lock_exclusive`. A compare-exchange that fails leaves what it
  -- has found in `lock_ex`, and the next round expects that.
  exchange : Lock → Bool → Lock × Place
  exchange m expected =
      if same m.write_lock expected
      then (record m { write_lock = true }, exclusive_scan 0)
      else (m, exclusive_exchange m.write_lock)

  -- The scan goes on behind a zero and starts again at any other counter.
  scan : Lock → ℕ → Lock × Place
  scan m k = (
    m,
    if ltb k slots
        then (if m.locked k == 0 then exclusive_scan (k + 1) else exclusive_scan 0)
        else writing,
  )

  unfoldable pub move : Call → ℕ → Lock → Place → Lock × Place
  unfolding enter exchange scan
  move c i m idle = (m, enter c)
  move c i m (shared_count k) =
      (record m { locked = update m.locked k ((m.locked k + 1) % 2 ^ 32) }, shared_check k)
  move c i m (shared_check k) = (m, if m.write_lock then shared_undo k else reading k)
  move c i m (shared_undo k) =
      (record m { locked = update m.locked k ((m.locked k + 2 ^ 32 - 1) % 2 ^ 32) }, shared_wait k)
  move c i m (shared_wait k) = (m, if m.write_lock then shared_wait k else shared_count k)
  move c i m (reading k) =
      (record m { locked = update m.locked k ((m.locked k + 2 ^ 32 - 1) % 2 ^ 32) }, idle)
  move c i m (exclusive_exchange expected) = exchange m expected
  move c i m (exclusive_scan k) = scan m k
  move c i m writing = (record m { write_lock = false }, idle)
