-- ===== src/Sync/Spinlock/Tests.antt =====
-- `spinlock` on a schedule of two threads, and the theorems at the state that it reaches.
use hope_threading.Prelude.{ℕ, ◌≡◌, refl, true, [], ◌∷◌, arith}
use hope_threading.Threads.{Run, run}
use hope_threading.Sync.Spinlock.{exchange, holding, lock, try_lock, move}
use hope_threading.Sync.Spinlock.Invariant.{initial}
use hope_threading.Sync.Spinlock.Safety.{mutual_exclusion}

-- Thread 1 holds the lock and thread 0 is about to exchange.
abbrev contended : Run move 2 initial
contended = run move 2 initial ((1, try_lock) ∷ (1, lock) ∷ (1, lock) ∷ (0, lock) ∷ [])

contended_places :
    (contended.last.mem ≡ true) × (contended.last.pc 0 ≡ exchange) × (contended.last.pc 1 ≡ holding)
unfolding run move
contended_places = (refl, refl, refl)

mutual_exclusion_example : ◌≡◌ {A = ℕ} 1 1
unfolding run move
mutual_exclusion_example =
    mutual_exclusion contended.reach 1 1 (omega arith) (omega arith) refl refl
