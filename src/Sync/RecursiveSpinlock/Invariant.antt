-- ===== src/Sync/RecursiveSpinlock/Invariant.antt =====
-- What the owner and the count of `recursive_spinlock` say of the place of each thread.
use hope_threading.Prelude.{
  zero, suc, ℕ, ◌+◌, ◌%◌, ◌^◌, ◌≤◌, ◌<◌, ◌≡◌, ◌≢◌, refl, sym, ◌⊎◌, inl, ℕ_discrete, arith,
}
use hope_threading.Threads.{update, System, Reach, moves, Reach-keeps_counted}
use hope_threading.Sync.RecursiveSpinlock.{
  Lock, Place, between, check, enter_again, exchange, set_one, wait, try_check, try_again,
  try_exchange, try_count, release, free, Call, move,
}

abbrev pub Outside : ℕ → Lock → ℕ → Type 0
Outside me m d = (d ≡ 0) × (m.owner ≢ me)

abbrev pub Inside : ℕ → Lock → ℕ → Type 0
Inside me m d = (0 < d) × (m.owner ≡ me) × (m.recursion ≡ d)

-- The owner is set, and the count is still or again zero.
abbrev pub Uncounted : ℕ → Lock → Type 0
Uncounted me m = (m.owner ≡ me) × (m.recursion ≡ 0)

-- What holds at a place of the thread whose id is `me`.
abbrev pub At : ℕ → Lock → Place → Type 0
At me m (between d) = Outside me m d ⊎ Inside me m d
At me m (check d) = Outside me m d ⊎ Inside me m d
At me m (try_check d) = Outside me m d ⊎ Inside me m d
At me m (enter_again d) = Inside me m d
At me m (try_again d) = Inside me m d
At me m (release d) = Inside me m d
At me m (exchange d) = Outside me m d
At me m (wait d) = Outside me m d
At me m (try_exchange d) = Outside me m d
At me m (set_one d) = (d ≡ 0) × Uncounted me m
At me m (try_count d) = (d ≡ 0) × Uncounted me m
At me m (free d) = (d ≡ 1) × Uncounted me m

abbrev pub depth : Place → ℕ
depth (between d) = d
depth (check d) = d
depth (try_check d) = d
depth (enter_again d) = d
depth (try_again d) = d
depth (release d) = d
depth (exchange d) = d
depth (wait d) = d
depth (try_exchange d) = d
depth (set_one d) = d
depth (try_count d) = d
depth (free d) = d

abbrev pub Cleared : Lock → Type 0
Cleared m = m.owner ≡ 0 → m.recursion ≡ 0

-- The ids that the threads get: as the code sees them not zero, and each another.
pub record IsIdentity (id : ℕ → ℕ) (n : ℕ) : Type 0 where
  pub positive : (i : ℕ) → i < n → id i % 2 ^ 32 ≢ 0
  pub distinct : (i j : ℕ) → i < n → j < n → id i % 2 ^ 32 ≡ id j % 2 ^ 32 → i ≡ j

module _ (id : ℕ → ℕ) where
  -- A move keeps what holds of the thread that makes it.
  move-own :
      (k : ℕ) (c : Call) (i : ℕ) (m : Lock) (p : Place)
      → id i % 2 ^ 32 ≢ 0
      → k + 1 < 2 ^ 64
      → depth p ≤ k
      → Cleared m
      → At (id i % 2 ^ 32) m p
      → At (id i % 2 ^ 32) (move id c i m p).0 (move id c i m p).1
        × Cleared (move id c i m p).0
        × (depth (move id c i m p).1 ≤ k + 1)
  unfolding move
  move-own k c i m (between zero) pos lim dp cl at = ground arith
  move-own k c i m (between (suc d)) pos lim dp cl at = ground arith
  move-own k c i m p pos lim dp cl at = ground arith

  -- A move changes the lock only if it was free or the mover's, and leaves it free or the mover's.
  move-frame :
      (c : Call) (i : ℕ) (m : Lock) (p : Place)
      → At (id i % 2 ^ 32) m p
      → ((move id c i m p).0 ≡ m)
        ⊎ (((m.owner ≡ 0) ⊎ (m.owner ≡ id i % 2 ^ 32))
            × (((move id c i m p).0.owner ≡ 0) ⊎ ((move id c i m p).0.owner ≡ id i % 2 ^ 32)))
  unfolding move
  move-frame c i m (between d) at = inl refl
  move-frame c i m p at = ground arith

-- What holds of another thread is kept by such a change.
frame-At :
    (me you : ℕ) (m m' : Lock) (q : Place)
    → you ≢ me
    → you ≢ 0
    → (m' ≡ m) ⊎ (((m.owner ≡ 0) ⊎ (m.owner ≡ me)) × ((m'.owner ≡ 0) ⊎ (m'.owner ≡ me)))
    → At you m q
    → At you m' q
frame-At me you m m' (between d) ne pos f at = ground arith
frame-At me you m m' q ne pos f at = ground arith

-- After `k` moves.
pub record Inv (id : ℕ → ℕ) (n k : ℕ) (m : Lock) (pc : ℕ → Place) : Type 0 where
  pub cleared : Cleared m
  pub places : (i : ℕ) → i < n → At (id i % 2 ^ 32) m (pc i)
  pub depths : (i : ℕ) → i < n → depth (pc i) ≤ k

module _ (id : ℕ → ℕ) (n : ℕ) (ident : IsIdentity id n) where
  open ident use {positive, distinct}

  move-Inv :
      (k i : ℕ) (c : Call) (m : Lock) (pc : ℕ → Place)
      → i < n
      → (k < 2 ^ 64 → Inv id n k m pc)
      → k + 1 < 2 ^ 64
      → Inv id n (k + 1) (move id c i m (pc i)).0 (update pc i (move id c i m (pc i)).1)
  move-Inv k i c m pc lt before lim = record {
    cleared = own.1;
    places = λ j hj. elim (ℕ_discrete i j) [
      | yes e ↦ ground (arith, own, e)
      | no ne ↦ ground (
        arith,
        frame-At (id i % 2 ^ 32) (id j % 2 ^ 32) m (move id c i m (pc i)).0 (pc j)
            (λ e. ne (sym (distinct j i hj lt e))) (positive j hj)
            (move-frame id c i m (pc i) (v.places i lt)) (v.places j hj),
      )
    ];
    depths = λ j hj. ground (arith, own, v.depths j hj);
  }
    where
      v : Inv id n k m pc
      v = before (omega arith)

      own :
          At (id i % 2 ^ 32) (move id c i m (pc i)).0 (move id c i m (pc i)).1
          × Cleared (move id c i m (pc i)).0
          × (depth (move id c i m (pc i)).1 ≤ k + 1)
      own = move-own id k c i m (pc i) (positive i lt) lim (v.depths i lt) v.cleared (v.places i lt)

-- The lock as it is constructed, and no thread in a call.
abbrev pub initial : System Lock Place
initial = record { mem = record { owner = 0; recursion = 0 }; pc = λ _. between 0 }

Inv-start : (id : ℕ → ℕ) (n : ℕ) → IsIdentity id n → Inv id n 0 initial.mem initial.pc
Inv-start id n ident = record {
  cleared = λ _. refl;
  places = λ i hi. inl (refl, λ e. ident.positive i hi (sym e));
  depths = λ i hi. omega arith;
}

pub Reach-Inv :
    {id : ℕ → ℕ} {n : ℕ} {s : System Lock Place}
    → IsIdentity id n
    → (r : Reach (move id) n initial s) → moves (move id) r < 2 ^ 64
    → Inv id n (moves (move id) r) s.mem s.pc
Reach-Inv {id} {n} ident r few =
    Reach-keeps_counted (move id) n (λ k m pc. k < 2 ^ 64 → Inv id n k m pc)
      (λ k i c m pc lt before lim. move-Inv id n ident k i c m pc lt before lim)
      (λ _. Inv-start id n ident) r few
