-- ===== src/Sync/SharedObject.antt =====
-- `object_safe_wrapper` of lib/hope_thread/synchronization/object_safe_wrapper.h with `rw_spinlock` as its
-- mutex, an exclusive lock for an object that may change and a shared one for a constant object. A call
-- that changes the object reads it and writes it back, in two steps; a constant one reads it twice.
mod Lock
pub mod Safety
mod Tests
use hope_threading.Prelude.{ℕ, List, [], ◌∷◌, ◌++◌}
use hope_threading.Sync.RwSpinlock as RwSpinlock

-- `m_object_guard` and `m_object`. `applied` is no part of the code: what has been done to the object.
pub record Wrapper (A : Type 0) : Type 0 where
  pub guard : ℕ
  pub object : A
  pub applied : List (A → A)

-- Where a thread stands: in no call; in the proxy's constructor, which locks; at the reads and the write
-- of the object through `operator->` or `operator*` of the wrapper; in the proxy's destructor, which
-- unlocks. A thread that locks by `lock` or `lock_shared`, and `raw`, which copies the object, are left
-- out.
pub data Place (A : Type 0) : Type 0 where
  outside : Place A
  exclusive_lock : RwSpinlock.Place → (A → A) → Place A
  shared_lock : RwSpinlock.Place → Place A
  read_object : (A → A) → Place A
  write_object : (A → A) → A → Place A
  exclusive_unlock : Place A
  first_look : Place A
  second_look : A → Place A
  shared_unlock : A → A → Place A

-- What a thread outside does next with the object.
pub data Call (A : Type 0) : Type 0 where
  change : (A → A) → Call A
  look : Call A

module _ {A : Type 0} where
  -- The constructor of the lock is done when the mutex is held.
  unfoldable pub arrived_exclusive : RwSpinlock.Place → (A → A) → Place A
  arrived_exclusive RwSpinlock.writing f = read_object f
  arrived_exclusive p f = exclusive_lock p f

  unfoldable pub arrived_shared : RwSpinlock.Place → Place A
  arrived_shared RwSpinlock.reading = first_look
  arrived_shared p = shared_lock p

  unfoldable pub enter : Call A → ℕ → Wrapper A → Place A
  enter (change f) i m =
      exclusive_lock (RwSpinlock.move RwSpinlock.lock i m.guard RwSpinlock.idle).1 f
  enter look i m = shared_lock (RwSpinlock.move RwSpinlock.lock_shared i m.guard RwSpinlock.idle).1

  unfoldable pub move : Call A → ℕ → Wrapper A → Place A → Wrapper A × Place A
  move c i m outside = (m, enter c i m)
  move c i m (exclusive_lock p f) =
      let (word, p') = RwSpinlock.move RwSpinlock.lock i m.guard p in
      (record m { guard = word }, arrived_exclusive p' f)
  move c i m (shared_lock p) =
      let (word, p') = RwSpinlock.move RwSpinlock.lock_shared i m.guard p in
      (record m { guard = word }, arrived_shared p')
  move c i m (read_object f) = (m, write_object f m.object)
  move c i m (write_object f old) =
      (record m { object = f old; applied = m.applied ++ f ∷ [] }, exclusive_unlock)
  move c i m exclusive_unlock = (
    record m { guard = (RwSpinlock.move RwSpinlock.lock i m.guard RwSpinlock.writing).0 },
    outside,
  )
  move c i m first_look = (m, second_look m.object)
  move c i m (second_look a) = (m, shared_unlock a m.object)
  move c i m (shared_unlock a b) = (
    record m { guard = (RwSpinlock.move RwSpinlock.lock_shared i m.guard RwSpinlock.reading).0 },
    outside,
  )
