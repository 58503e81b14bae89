-- ===== src/Threads/Steps.antt =====
-- The system of `n` threads over one memory, its steps and its reachable states.
use hope_threading.Prelude.{zero, suc, ℕ, ◌+◌, ◌<◌, List, [], ◌∷◌, dec_lt, ℕ_discrete}
use hope_threading.Threads.Family.{update}

-- `M` is the shared memory, `L` where a thread stands with its locals. A thread from `n` on is never
-- picked.
pub record System (M L : Type 0) : Type 0 where
  pub mem : M
  pub pc : ℕ → L

-- What thread `i` does next at a memory and a place. A choice is made where the thread is between
-- two calls: which one it makes.
abbrev pub Mover : Type 0 → Type 0 → Type 0 → Type 0
Mover C M L = C → ℕ → M → L → M × L

module _ {C M L : Type 0} (move : Mover C M L) where
  abbrev pub turn : ℕ → C → System M L → System M L
  turn i c s =
      let after = move c i s.mem (s.pc i) in record { mem = after.0; pc = update s.pc i after.1 }

  -- So many turns of thread `i` alone.
  unfoldable pub solo : ℕ → C → ℕ → System M L → System M L
  solo i c zero s = s
  solo i c (suc k) s = solo i c k (turn i c s)

  pub data Step (n : ℕ) (s : System M L) : System M L → Type 0 where
    pick : (i : ℕ) (c : C) → i < n → Step n s (turn i c s)

  pub data Reach (n : ℕ) (s : System M L) : System M L → Type 0 where
    start : Reach n s s
    later : {t u : System M L} → Reach n s t → Step n t u → Reach n s u

  -- What holds at the start and is kept by each move of each thread holds in each reachable state.
  pub Reach-keeps :
      (n : ℕ) (P : M → (ℕ → L) → Type 0)
      → ((i : ℕ) (c : C) (m : M) (pc : ℕ → L)
          → i < n
          → P m pc
          → P (move c i m (pc i)).0 (update pc i (move c i m (pc i)).1))
      → {s t : System M L} → P s.mem s.pc
      → Reach n s t
      → P t.mem t.pc
  Reach-keeps n P keep h start = h
  Reach-keeps n P keep h (later {t} r (pick i c lt)) =
      keep i c t.mem t.pc lt (Reach-keeps n P keep {t = t} h r)

  -- The number of moves that all threads have made.
  unfoldable pub moves : {n : ℕ} {s t : System M L} → Reach n s t → ℕ
  moves start = 0
  moves (later r st) = moves r + 1

  -- The same rule for what may also depend on the number of moves made.
  pub Reach-keeps_counted :
      (n : ℕ) (P : ℕ → M → (ℕ → L) → Type 0)
      → ((k i : ℕ) (c : C) (m : M) (pc : ℕ → L)
          → i < n
          → P k m pc
          → P (k + 1) (move c i m (pc i)).0 (update pc i (move c i m (pc i)).1))
      → {s t : System M L} → P 0 s.mem s.pc
      → (r : Reach n s t) → P (moves r) t.mem t.pc
  unfolding moves
  Reach-keeps_counted n P keep h start = h
  Reach-keeps_counted n P keep h (later {t} r (pick i c lt)) =
      keep (moves r) i c t.mem t.pc lt (Reach-keeps_counted n P keep {t = t} h r)

  -- The state after the turns of a schedule, and that it is reachable.
  pub record Run (n : ℕ) (s : System M L) : Type 0 where
    pub last : System M L
    pub reach : Reach n s last

  run_from : {n : ℕ} {s : System M L} → List (ℕ × C) → Run n s → Run n s
  run_from [] r = r
  run_from {n} ((i, c) ∷ turns) r = run_from turns (elim (dec_lt i n) [
    | yes lt ↦ record { last = turn i c r.last; reach = later r.reach (pick i c lt) }
    | no _ ↦ r
  ])

  unfoldable pub run : (n : ℕ) (s : System M L) → List (ℕ × C) → Run n s
  unfolding run_from dec_lt ℕ_discrete
  run n s turns = run_from turns (record { last = s; reach = start })
