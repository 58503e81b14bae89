-- ===== src/Sync/SharedObject/Lock.antt =====
-- The mutex of `object_safe_wrapper` runs as `rw_spinlock`.
use hope_threading.Prelude.{ℕ, ◌≡◌, refl, inl, inr, arith}
use hope_threading.Threads.{Follows}
use hope_threading.Sync.RwSpinlock as RwSpinlock
use hope_threading.Sync.SharedObject.{
  Wrapper, Place, Call, change, look, outside, exclusive_lock, shared_lock, read_object,
  write_object, exclusive_unlock, first_look, second_look, shared_unlock, arrived_exclusive,
  arrived_shared, enter, move,
}

module _ {A : Type 0} where
  -- Where a thread stands in the lock.
  abbrev pub in_lock : Place A → RwSpinlock.Place
  in_lock outside = RwSpinlock.idle
  in_lock (exclusive_lock p f) = p
  in_lock (shared_lock p) = p
  in_lock (read_object f) = RwSpinlock.writing
  in_lock (write_object f old) = RwSpinlock.writing
  in_lock exclusive_unlock = RwSpinlock.writing
  in_lock first_look = RwSpinlock.reading
  in_lock (second_look a) = RwSpinlock.reading
  in_lock (shared_unlock a b) = RwSpinlock.reading

  abbrev pub guard_of : Wrapper A → ℕ
  guard_of m = m.guard

in_lock-arrived_exclusive :
    {A : Type 0} (p : RwSpinlock.Place) (f : A → A) → in_lock (arrived_exclusive p f) ≡ p
unfolding arrived_exclusive
in_lock-arrived_exclusive p f = ground arith

in_lock-arrived_shared :
    (A : Type 0) (p : RwSpinlock.Place) → in_lock (arrived_shared {A = A} p) ≡ p
unfolding arrived_shared
in_lock-arrived_shared A p = ground arith

module _ {A : Type 0} where
  pub move-Follows :
      (c : Call A) (i : ℕ) (m : Wrapper A) (p : Place A)
      → Follows move RwSpinlock.move guard_of in_lock c i m p
  unfolding move enter RwSpinlock.move
  move-Follows (change f) i m outside = inl (RwSpinlock.lock, refl, refl)
  move-Follows look i m outside = inl (RwSpinlock.lock_shared, refl, refl)
  move-Follows c i m (exclusive_lock p f) = inl (
    RwSpinlock.lock,
    refl,
    in_lock-arrived_exclusive (RwSpinlock.move RwSpinlock.lock i m.guard p).1 f,
  )
  move-Follows c i m (shared_lock p) = inl (
    RwSpinlock.lock_shared,
    refl,
    in_lock-arrived_shared A (RwSpinlock.move RwSpinlock.lock_shared i m.guard p).1,
  )
  move-Follows c i m (read_object f) = inr (refl, refl)
  move-Follows c i m (write_object f old) = inr (refl, refl)
  move-Follows c i m exclusive_unlock = inl (RwSpinlock.lock, refl, refl)
  move-Follows c i m first_look = inr (refl, refl)
  move-Follows c i m (second_look a) = inr (refl, refl)
  move-Follows c i m (shared_unlock a b) = inl (RwSpinlock.lock_shared, refl, refl)
