-- ===== src/Sync/RwSpinlock/Tests.antt =====
-- `rw_spinlock` on schedules of three threads, and the theorems at the states that these reach.
use hope_threading.Prelude.{ℕ, ◌+◌, ◌≡◌, refl, inr, [], ◌∷◌, arith}
use hope_threading.Threads.{Run, run}
use hope_threading.Sync.RwSpinlock.{
  one_writer, shared_undo, reading, writing, lock_shared, lock, move,
}
use hope_threading.Sync.RwSpinlock.Invariant.{initial}
use hope_threading.Sync.RwSpinlock.Safety.{writer_alone}

-- Thread 1 writes; thread 0 has tried to read and failed.
abbrev contended : Run move 3 initial
contended = run move 3 initial ((1, lock) ∷ (1, lock) ∷ (0, lock_shared) ∷ (0, lock_shared) ∷ [])

contended_places :
    (contended.last.mem ≡ one_writer + 1)
    × (contended.last.pc 0 ≡ shared_undo)
    × (contended.last.pc 1 ≡ writing)
unfolding run move
contended_places = (refl, refl, refl)

-- Two threads read.
abbrev shared : Run move 3 initial
shared =
    run move 3 initial ((1, lock_shared) ∷ (1, lock) ∷ (0, lock_shared) ∷ (0, lock_shared) ∷ [])

shared_places : (shared.last.mem ≡ 2) × (shared.last.pc 0 ≡ reading) × (shared.last.pc 1 ≡ reading)
unfolding run move
shared_places = (refl, refl, refl)

writer_alone_example : ◌≡◌ {A = ℕ} 1 1
unfolding run move
writer_alone_example =
    writer_alone (omega arith) contended.reach 1 1 (omega arith) (omega arith) refl (inr refl)
