-- ===== src/Sync/RecursiveSpinlock/Tests.antt =====
-- `recursive_spinlock` on schedules of two threads, and the theorems at the states that these reach.
use hope_threading.Prelude.{ℕ, ◌+◌, ◌≡◌, refl, [], ◌∷◌, arith}
use hope_threading.Core.ThreadId.{linux_thread_id}
use hope_threading.Threads.{Run, run, moves}
use hope_threading.Sync.RecursiveSpinlock.{between, check, wait, lock, try_lock, move}
use hope_threading.Sync.RecursiveSpinlock.Invariant.{IsIdentity, initial}
use hope_threading.Sync.RecursiveSpinlock.Safety.{owner_alone}

-- The ids 1, 2, … of two threads.
abbrev ids : ℕ → ℕ
ids i = i + 1

ids-IsIdentity : IsIdentity ids 2
ids-IsIdentity = record { positive = λ i h. omega arith; distinct = λ i j hi hj e. omega arith }

-- Thread 0 has locked twice, and thread 1 waits.
abbrev nested : Run (move ids) 2 initial
nested = run (move ids) 2 initial (
    (0, lock)
    ∷ (0, lock)
    ∷ (0, lock)
    ∷ (0, lock)
    ∷ (0, try_lock)
    ∷ (0, lock)
    ∷ (0, lock)
    ∷ (1, lock)
    ∷ (1, lock)
    ∷ (1, lock)
    ∷ [])

nested_state :
    (nested.last.mem ≡ record { owner = 1; recursion = 2 })
    × (nested.last.pc 0 ≡ between 2)
    × (nested.last.pc 1 ≡ wait 0)
unfolding run move
nested_state = (refl, refl, refl)

owner_alone_example :
    (◌≡◌ {A = ℕ} 0 0) × (nested.last.mem.owner ≡ 1) × (nested.last.mem.recursion ≡ 2)
unfolding run move moves
owner_alone_example =
    owner_alone ids-IsIdentity nested.reach (omega arith) 0 0 1 1 (omega arith) (omega arith) refl
      refl

-- On Linux thread 1 is at the load of `lock` while thread 0 has the lock.
abbrev linux : Run (move linux_thread_id) 2 initial
linux = run (move linux_thread_id) 2 initial ((0, lock) ∷ (0, lock) ∷ (0, lock) ∷ (1, lock) ∷ [])

linux_state : (linux.last.pc 0 ≡ between 1) × (linux.last.pc 1 ≡ check 0)
unfolding run move
linux_state = (refl, refl)
