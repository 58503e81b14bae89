-- ===== src/Sync/SharedObject/Safety.antt =====
-- What a constant call of an object under `object_safe_wrapper` sees.
use hope_threading.Prelude.{ℕ, ◌^◌, ◌<◌, ◌≡◌, refl, ◌⊎◌, ◌≢◌, inl, inr, subst, [], arith}
use hope_threading.Threads.{
  Reach-keeps, update-each, Reach, update, System, Reach-project, start, later, pick,
}
use hope_threading.Sync.RwSpinlock as RwSpinlock
use hope_threading.Sync.RwSpinlock.Safety.{writer_alone, Holds}
use hope_threading.Sync.ObjectSafe.Safety.{apply_all, apply_all-append}
use hope_threading.Sync.SharedObject.{
  Wrapper, Place, Call, change, look, outside, exclusive_lock, shared_lock, read_object,
  write_object, exclusive_unlock, first_look, second_look, shared_unlock, arrived_exclusive,
  arrived_shared, enter, move,
}
use hope_threading.Sync.SharedObject.Lock.{in_lock, guard_of, move-Follows}

module _ {A : Type 0} where
  -- What a place says of the object.
  abbrev At : Wrapper A → Place A → Type 0
  At m (write_object f old) = old ≡ m.object
  At m (second_look a) = a ≡ m.object
  At m (shared_unlock a b) = (a ≡ m.object) × (b ≡ m.object)
  At m _ = Unit

  module _ (begin : A) where
    -- The object as it is constructed, and no thread in a call.
    abbrev pub initial : System (Wrapper A) (Place A)
    initial = record { mem = record { guard = 0; object = begin; applied = [] }; pc = λ _. outside }

    record Inv (n : ℕ) (m : Wrapper A) (pc : ℕ → Place A) : Type 0 where
      pub reached : Reach move n initial (record { mem = m; pc = pc })
      pub object_is : m.object ≡ apply_all m.applied begin
      pub places : (j : ℕ) → j < n → At m (pc j)

    At-arrived_exclusive :
        (m : Wrapper A) (p : RwSpinlock.Place) (f : A → A) → At m (arrived_exclusive p f)
    unfolding arrived_exclusive
    At-arrived_exclusive m p f = ground arith

    At-arrived_shared : (m : Wrapper A) (p : RwSpinlock.Place) → At m (arrived_shared p)
    unfolding arrived_shared
    At-arrived_shared m p = ground arith

    -- One move: the thread's own place, the object, and who writes it.
    own-lem :
        (c : Call A) (i : ℕ) (m : Wrapper A) (p : Place A)
        → m.object ≡ apply_all m.applied begin
        → At m p
        → ((move c i m p).0.object ≡ apply_all (move c i m p).0.applied begin)
          × At (move c i m p).0 (move c i m p).1
          × (((move c i m p).0.object ≡ m.object) ⊎ (in_lock p ≡ RwSpinlock.writing))
    unfolding move enter
    own-lem (change f) i m outside o at = (o, tt, inl refl)
    own-lem look i m outside o at = (o, tt, inl refl)
    own-lem c i m (exclusive_lock p f) o at = (
      o,
      At-arrived_exclusive (record m { guard = (RwSpinlock.move RwSpinlock.lock i m.guard p).0 })
          (RwSpinlock.move RwSpinlock.lock i m.guard p).1 f,
      inl refl,
    )
    own-lem c i m (shared_lock p) o at = (
      o,
      At-arrived_shared
          (record m { guard = (RwSpinlock.move RwSpinlock.lock_shared i m.guard p).0 })
          (RwSpinlock.move RwSpinlock.lock_shared i m.guard p).1,
      inl refl,
    )
    own-lem c i m (read_object f) o at = (o, refl, inl refl)
    own-lem c i m (write_object f old) o at =
        (ground (arith, o, at, apply_all-append m.applied f begin), tt, inr refl)
    own-lem c i m exclusive_unlock o at = (o, tt, inl refl)
    own-lem c i m first_look o at = (o, refl, inl refl)
    own-lem c i m (second_look a) o at = (o, (at, refl), inl refl)
    own-lem c i m (shared_unlock a b) o at = (o, tt, inl refl)

    At-others :
        (m m' : Wrapper A) (p : Place A)
        → (m'.object ≡ m.object) ⊎ ¬ Holds (in_lock p)
        → At m p
        → At m' p
    At-others m m' (write_object f old) (inl e) at = ground (arith, e, at)
    At-others m m' (write_object f old) (inr not_held) at = absurd (not_held (inr refl))
    At-others m m' (second_look a) (inl e) at = ground (arith, e, at)
    At-others m m' (second_look a) (inr not_held) at = absurd (not_held (inl refl))
    At-others m m' (shared_unlock a b) (inl e) at = ground (arith, e, at)
    At-others m m' (shared_unlock a b) (inr not_held) at = absurd (not_held (inl refl))
    At-others m m' outside same at = tt
    At-others m m' (exclusive_lock p f) same at = tt
    At-others m m' (shared_lock p) same at = tt
    At-others m m' (read_object f) same at = tt
    At-others m m' exclusive_unlock same at = tt
    At-others m m' first_look same at = tt

    -- A thread that writes is alone.
    alone :
        {n : ℕ} {m : Wrapper A} {pc : ℕ → Place A}
        → n < 2 ^ 12
        → Reach move n initial (record { mem = m; pc = pc })
        → (i j : ℕ) → i < n
        → j < n
        → i ≢ j
        → in_lock (pc i) ≡ RwSpinlock.writing
        → ¬ Holds (in_lock (pc j))
    alone few r i j hi hj ne writes holds = ne (
        writer_alone few (Reach-project move RwSpinlock.move guard_of in_lock move-Follows r) i j hi
          hj writes holds)

    module _ (n : ℕ) (few : n < 2 ^ 12) where
      move-Inv :
          (i : ℕ) (c : Call A) (m : Wrapper A) (pc : ℕ → Place A)
          → i < n
          → Inv n m pc
          → Inv n (move c i m (pc i)).0 (update pc i (move c i m (pc i)).1)
      move-Inv i c m pc lt inv =
          let own = own-lem c i m (pc i) inv.object_is (inv.places i lt) in
          record {
            reached = later inv.reached (pick i c lt);
            object_is = own.0;
            places = λ j below.
                update-each (λ k p. At (move c i m (pc i)).0 p) pc i j own.1
                  (λ ne.
                    At-others m (move c i m (pc i)).0 (pc j)
                      (elim own.2 [
                        | inl same ↦ inl same
                        | inr here ↦ inr (alone few inv.reached i j lt below ne here)
                      ])
                      (inv.places j below));
          }

      Reach-Inv : {s : System (Wrapper A) (Place A)} → Reach move n initial s → Inv n s.mem s.pc
      unfolding apply_all
      Reach-Inv {s} r =
          Reach-keeps move n (Inv n) move-Inv {s = initial}
            (record { reached = start; object_is = refl; places = λ j lt. tt }) r

    -- A constant call sees one object: in each reachable state of fewer than 2 ^ 12 threads that call
    -- functions of the object through the wrapper, a thread that has read it twice under the shared lock
    -- has read the same both times, which is the object as it still is, and that is what all the
    -- functions that have written, one after another, make of the first one.
    pub looks_agree :
        {n : ℕ} {s : System (Wrapper A) (Place A)}
        → n < 2 ^ 12
        → Reach move n initial s
        → (i : ℕ) (a b : A) → i < n
        → s.pc i ≡ shared_unlock a b
        → (a ≡ b) × (b ≡ s.mem.object) × (s.mem.object ≡ apply_all s.mem.applied begin)
    looks_agree {n} {s} few r i a b lt here = (ground (arith, at), at.1, inv.object_is)
      where
        inv : Inv n s.mem s.pc
        inv = Reach-Inv n few r

        at : At s.mem (shared_unlock a b)
        at = subst (At s.mem) here (inv.places i lt)
