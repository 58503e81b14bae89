-- ===== src/Sync/ObjectSafe/Safety.antt =====
-- No call through `object_safe_wrapper` is lost.
use hope_threading.Prelude.{
  inr, subst, inl, ℕ, ◌+◌, ◌<◌, ◌≡◌, refl, ◌⊎◌, false, List, [], ◌∷◌, ◌++◌, arith,
}
use hope_threading.Threads.{
  Reach-keeps, update-each, total-const, le-total_two, Reach, total-update, update, System, total,
}
use hope_threading.Sync.Spinlock as Spinlock
use hope_threading.Sync.Spinlock.{exchange, wait}
use hope_threading.Sync.Spinlock.Invariant.{Agrees}
use hope_threading.Sync.ObjectSafe.{
  Wrapper, Place, outside, construct, read_object, write_object, destruct, move,
}

module _ {A : Type 0} where
  -- One function after another.
  unfoldable pub apply_all : List (A → A) → A → A
  apply_all [] a = a
  apply_all (f ∷ fs) a = apply_all fs (f a)

  pub apply_all-append :
      (fs : List (A → A)) (f : A → A) (a : A) → apply_all (fs ++ f ∷ []) a ≡ f (apply_all fs a)
  unfolding apply_all
  apply_all-append [] f a = refl
  apply_all-append (g ∷ fs) f a = apply_all-append fs f (g a)

  -- Whether a thread has the lock.
  abbrev inside : Place A → ℕ
  inside outside = 0
  inside (construct p f) = 0
  inside _ = 1

  -- What a place says of the object.
  abbrev At : Wrapper A → Place A → Type 0
  At m (construct p f) = (p ≡ exchange) ⊎ (p ≡ wait)
  At m (write_object f old) = old ≡ m.object
  At m _ = Unit

  record Inv (start : A) (n : ℕ) (m : Wrapper A) (pc : ℕ → Place A) : Type 0 where
    pub agrees : Agrees m.guard (total inside n pc)
    pub object_is : m.object ≡ apply_all m.applied start
    pub places : (j : ℕ) → j < n → At m (pc j)

  -- One move: the lock, the thread's own place, and what the others see of the object.
  own-lem :
      (start : A) (c : A → A) (i : ℕ) (m : Wrapper A) (p : Place A) (h h' : ℕ)
      → h' + inside p ≡ h + inside (move c i m p).1
      → Agrees m.guard h
      → m.object ≡ apply_all m.applied start
      → At m p
      → Agrees (move c i m p).0.guard h'
        × ((move c i m p).0.object ≡ apply_all (move c i m p).0.applied start)
        × At (move c i m p).0 (move c i m p).1
        × (((move c i m p).0.object ≡ m.object) ⊎ (inside p ≡ 1))
  unfolding move Spinlock.move
  own-lem start c i m outside h h' e g o at = ground (arith, e, g, o)
  own-lem start c i m (construct exchange f) h h' e g o at = ground (arith, e, g, o)
  own-lem start c i m (construct wait f) h h' e g o at = ground (arith, e, g, o)
  own-lem start c i m (construct p f) h h' e g o at = absurd (ground (arith, at))
  own-lem start c i m (read_object f) h h' e g o at = ground (arith, e, g, o)
  own-lem start c i m (write_object f old) h h' e g o at =
      ground (arith, e, g, o, at, apply_all-append m.applied f start)
  own-lem start c i m destruct h h' e g o at = ground (arith, e, g, o)

  module _ (start : A) (n : ℕ) where
    At-others :
        (m m' : Wrapper A) (p : Place A)
        → (m'.object ≡ m.object) ⊎ (inside p ≡ 0)
        → At m p
        → At m' p
    At-others m m' outside same at = tt
    At-others m m' (construct p f) same at = at
    At-others m m' (read_object f) same at = tt
    At-others m m' (write_object f old) same at = ground (arith, same, at)
    At-others m m' destruct same at = tt

    move-Inv :
        (i : ℕ) (c : A → A) (m : Wrapper A) (pc : ℕ → Place A)
        → i < n
        → Inv start n m pc
        → Inv start n (move c i m (pc i)).0 (update pc i (move c i m (pc i)).1)
    move-Inv i c m pc lt inv =
        let p' = (move c i m (pc i)).1 in
        let own =
          own-lem start c i m (pc i) (total inside n pc) (total inside n (update pc i p'))
            (total-update inside n pc i p' lt) inv.agrees inv.object_is (inv.places i lt) in
        record {
          agrees = own.0;
          object_is = own.1;
          places = λ j below.
              update-each (λ k p. At (move c i m (pc i)).0 p) pc i j own.2
                (λ ne.
                  At-others m (move c i m (pc i)).0 (pc j)
                    (elim own.3 [
                      | inl same ↦ inl same
                      | inr here ↦ inr (
                          ground
                            (arith, le-total_two inside n pc i j lt below ne, here, inv.agrees))
                    ])
                    (inv.places j below));
        }

    -- The object as it is constructed, and no thread in a call.
    abbrev pub initial : System (Wrapper A) (Place A)
    initial = record {
      mem = record { guard = false; object = start; applied = [] };
      pc = λ _. outside;
    }

    initial-Inv : Inv start n initial.mem initial.pc
    unfolding apply_all
    initial-Inv = record {
      agrees = inl (refl, total-const inside n outside refl);
      object_is = refl;
      places = λ j lt. tt;
    }

    -- No call is lost: in each reachable state of any number of threads that call functions of the object
    -- through the wrapper, each of which reads the object and later writes it back, the object is what
    -- all the functions that have written, one after another, make of the first one; and a thread that is
    -- about to write has read the object as it is.
    pub no_call_lost :
        {s : System (Wrapper A) (Place A)}
        → Reach move n initial s
        → (s.mem.object ≡ apply_all s.mem.applied start)
          × ((i : ℕ) (f : A → A) (old : A)
              → i < n
              → s.pc i ≡ write_object f old
              → old ≡ s.mem.object)
    no_call_lost {s} r =
        let inv = Reach-keeps move n (Inv start n) move-Inv {s = initial} initial-Inv r in
        (inv.object_is, λ i f old lt at. subst (At s.mem) at (inv.places i lt))
