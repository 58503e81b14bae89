-- ===== src/Sync/SeqLock.antt =====
-- `seq_lock` of lib/hope_thread/synchronization/seq_lock.h: one thread stores, others load. The value
-- is copied a unit at a time, as `memcpy` may.
mod Invariant
mod Keeps
pub mod Safety
pub mod Torn
mod Tests
use hope_threading.Prelude.{ℕ, ◌+◌, ◌%◌, ◌^◌, Bool, true, false, ltb, ◌==◌, if◌then◌else◌}
use hope_threading.Threads.{update}

-- A value by its units; only those below its size are copied.
abbrev pub Value : Type 0
Value = ℕ → ℕ

-- `m_seq` and `m_val`
pub record Memory : Type 0 where
  pub seq : ℕ
  pub val : Value

-- Where a thread stands. In `store`: behind the load with what it has read, or copying with the number
-- of units that it has written. In `load`: copying with the first `m_seq`, its buffer and the number
-- of units, behind the last unit, or returned with its buffer and the result.
pub data Place : Type 0 where
  idle : Place
  store_load : Value → Place
  store_odd : Value → ℕ → Place
  store_copy : Value → ℕ → ℕ → Place
  store_even : Value → ℕ → Place
  load_seq : Value → Place
  load_copy : ℕ → Value → ℕ → Place
  load_again : ℕ → Value → Place
  loaded : Value → Bool → Place

-- What an idle thread calls next: `store` with a value, or `load` into a buffer.
pub data Call : Type 0 where
  store : Value → Call
  load : Value → Call

enter : Call → Place
enter (store v) = store_load v
enter (load buffer) = load_seq buffer

module _ (size : ℕ) where
  unfoldable pub move : Call → ℕ → Memory → Place → Memory × Place
  unfolding enter
  move c i m idle = (m, enter c)
  move c i m (store_load v) = (m, store_odd v m.seq)
  move c i m (store_odd v seq) = (record m { seq = (seq + 1) % 2 ^ 64 }, store_copy v seq 0)
  move c i m (store_copy v seq k) =
      if ltb k size
      then (record m { val = update m.val k (v k) }, store_copy v seq (k + 1))
      else (m, store_even v seq)
  move c i m (store_even v seq) = (record m { seq = (seq + 2) % 2 ^ 64 }, idle)
  move c i m (load_seq buffer) = (m, load_copy m.seq buffer 0)
  move c i m (load_copy seq buffer k) = (
    m,
    if ltb k size then load_copy seq (update buffer k (m.val k)) (k + 1) else load_again seq buffer,
  )
  move c i m (load_again seq buffer) = (m, loaded buffer (m.seq == seq))
  move c i m (loaded buffer done) = (m, idle)
