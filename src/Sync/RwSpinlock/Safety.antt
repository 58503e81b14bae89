-- ===== src/Sync/RwSpinlock/Safety.antt =====
-- What `rw_spinlock` promises in each reachable state.
use hope_threading.Prelude.{ℕ, ◌+◌, ◌^◌, ◌<◌, ◌≡◌, ◌⊎◌, arith, ℕ_discrete}
use hope_threading.Threads.{total, le-total, le-total_two, System, Reach, turn}
use hope_threading.Sync.RwSpinlock.{
  one_writer, Place, shared_try, reading, exclusive_try, writing, Call, move,
}
use hope_threading.Sync.RwSpinlock.Invariant.{mark, reads, writes, initial, Reach-Inv}

abbrev pub Holds : Place → Type 0
Holds p = (p ≡ reading) ⊎ (p ≡ writing)

-- A thread that writes is alone: while fewer than 2 ^ 12 threads use the lock, no other thread reads
-- or writes in any state that they reach.
pub writer_alone :
    {n : ℕ} {s : System ℕ Place}
    → n < 2 ^ 12
    → Reach move n initial s
    → (i j : ℕ) → i < n
    → j < n
    → s.pc i ≡ writing
    → Holds (s.pc j)
    → i ≡ j
writer_alone {n} {s} few r i j hi hj wi hold = elim (ℕ_discrete i j) [
  | yes e ↦ e
  | no ne ↦ absurd (
      ground (
        arith,
        le-total writes n s.pc i hi,
        le-total reads n s.pc j hj,
        le-total_two writes n s.pc i j hi hj ne,
        alone,
      ))
]
  where
    open (Reach-Inv few r) use {alone}

-- The word is exact: in each reachable state it is the sum of the marks that the threads have set and
-- not taken back, so it never wraps, and it is zero when no thread has a mark.
pub word-eq-marks :
    {n : ℕ} {s : System ℕ Place}
    → n < 2 ^ 12
    → Reach move n initial s
    → (s.mem ≡ total mark n s.pc) × (s.mem < 2 ^ 32)
word-eq-marks few r = omega (arith, Reach-Inv few r)

-- A thread that tries for the shared lock in a reachable state where the threads' marks sum to less
-- than a writer's has the lock after its next move, whatever the other threads read.
pub try_shared_succeeds :
    {n : ℕ} {s : System ℕ Place}
    → n < 2 ^ 12
    → Reach move n initial s
    → (i : ℕ) (c : Call) → s.pc i ≡ shared_try
    → total mark n s.pc + 1 < one_writer
    → (turn move i c s).pc i ≡ reading
unfolding move
try_shared_succeeds few r i c here free = ground (arith, Reach-Inv few r)

-- A thread that tries for the exclusive lock in a reachable state where no thread has a mark has the
-- lock after its next move.
pub try_exclusive_succeeds :
    {n : ℕ} {s : System ℕ Place}
    → n < 2 ^ 12
    → Reach move n initial s
    → (i : ℕ) (c : Call) → s.pc i ≡ exclusive_try
    → total mark n s.pc ≡ 0
    → (turn move i c s).pc i ≡ writing
unfolding move
try_exclusive_succeeds few r i c here free = ground (arith, Reach-Inv few r)
