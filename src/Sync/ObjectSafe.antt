-- ===== src/Sync/ObjectSafe.antt =====
-- `object_safe_wrapper` of lib/hope_thread/synchronization/object_safe_wrapper.h with `spinlock` as its
-- mutex and an exclusive lock that takes it on construction and gives it back on destruction. A call
-- `w->f()` reads the object and writes it back, in two steps.
pub mod Safety
mod Tests
use hope_threading.Prelude.{ℕ, Bool, List, [], ◌∷◌, ◌++◌}
use hope_threading.Sync.Spinlock as Spinlock

-- `m_object_guard` and `m_object`. `applied` is no part of the code: what has been done to the object.
pub record Wrapper (A : Type 0) : Type 0 where
  pub guard : Bool
  pub object : A
  pub applied : List (A → A)

-- Where a thread stands: in the proxy's constructor at the lock, at the read or the write of the object,
-- or in the proxy's destructor.
pub data Place (A : Type 0) : Type 0 where
  outside : Place A
  construct : Spinlock.Place → (A → A) → Place A
  read_object : (A → A) → Place A
  write_object : (A → A) → A → Place A
  destruct : Place A

module _ {A : Type 0} where
  -- The constructor is done when the lock is held.
  arrived : Spinlock.Place → (A → A) → Place A
  arrived Spinlock.holding f = read_object f
  arrived p f = construct p f

  -- A thread that is outside calls the function that it picks.
  unfoldable pub move : (A → A) → ℕ → Wrapper A → Place A → Wrapper A × Place A
  unfolding arrived
  move f i m outside = (m, construct Spinlock.exchange f)
  move c i m (construct p f) =
      let (flag, p') = Spinlock.move Spinlock.lock i m.guard p in
      (record m { guard = flag }, arrived p' f)
  move c i m (read_object f) = (m, write_object f m.object)
  move c i m (write_object f old) =
      (record m { object = f old; applied = m.applied ++ f ∷ [] }, destruct)
  move c i m destruct =
      (record m { guard = (Spinlock.move Spinlock.lock i m.guard Spinlock.holding).0 }, outside)
