-- ===== src/Sync/RecursiveRwSpinlock/Tests.antt =====
-- `recursive_rw_spinlock` with two threads.
use hope_threading.Prelude.{◌≢◌, ◌+◌, ◌<◌, [], ◌∷◌, ℕ, ◌≡◌, refl, arith}
use hope_threading.Threads.{Run, run}
use hope_threading.Sync.RecursiveRwSpinlock.{lock, lock_shared, owner_id, move}
use hope_threading.Sync.RecursiveRwSpinlock.Nested.{outstanding, nested_move}
use hope_threading.Sync.RecursiveRwSpinlock.Reached.{Ids, initial}
use hope_threading.Sync.RecursiveRwSpinlock.Safety.{owner_excludes}

abbrev id : ℕ → ℕ
id i = i + 1

two-Ids : Ids 2 id
two-Ids = record { an_id = λ i lt. omega (arith, lt); distinct = λ i j hi hj e. omega (arith, e) }

-- Thread 0 calls `lock` and then `lock_shared`, while thread 1 tries for the shared lock in vain.
abbrev owned : Run (nested_move id) 2 initial
owned = run (nested_move id) 2 initial (
    (0, lock)
    ∷ (0, lock)
    ∷ (0, lock)
    ∷ (0, lock)
    ∷ (0, lock)
    ∷ (1, lock_shared)
    ∷ (1, lock_shared)
    ∷ (1, lock_shared)
    ∷ (0, lock_shared)
    ∷ (0, lock_shared)
    ∷ [])

owner_excludes_example :
    (owner_id owned.last.mem.word ≡ 1)
    × (owned.last.mem.depth ≡ 1)
    × ((j : ℕ) → j < 2 → 0 ≢ j → outstanding (owned.last.pc j) ≡ 0)
unfolding run move
owner_excludes_example =
    owner_excludes {id = id} (omega arith) two-Ids owned.reach 0 1 0 (omega arith) refl
