-- ===== src/Sync/ContentionFree/Tests.antt =====
-- `contention_free_rw_lock` on schedules, and the theorems at the states that these reach.
use hope_threading.Prelude.{◌+◌, ℕ, ◌≡◌, ◌≢◌, true, refl, [], ◌∷◌, arith}
use hope_threading.Threads.{Run, run, solo}
use hope_threading.Sync.ContentionFree.{
  reading, shared_undo, writing, lock_shared, lock_exclusive, move,
}
use hope_threading.Sync.ContentionFree.Invariant.{one_writer_move, initial}
use hope_threading.Sync.ContentionFree.Safety.{writer_excludes_readers}
use hope_threading.Sync.ContentionFree.Writers.{second_writer_passes}

-- With one slot: thread 0 writes, and thread 1 has counted itself and seen the flag.
abbrev excluded : Run (one_writer_move 1 0) 2 initial
excluded = run (one_writer_move 1 0) 2 initial (
    (0, lock_exclusive)
    ∷ (0, lock_exclusive)
    ∷ (0, lock_exclusive)
    ∷ (1, lock_shared 7)
    ∷ (0, lock_exclusive)
    ∷ (1, lock_shared 0)
    ∷ (1, lock_shared 0)
    ∷ [])

excluded_state : (excluded.last.pc 0 ≡ writing) × (excluded.last.pc 1 ≡ shared_undo 0)
unfolding run move
excluded_state = (refl, refl)

writer_excludes_readers_example :
    (excluded.last.mem.write_lock ≡ true) × (excluded.last.pc 1 ≢ reading 0)
unfolding run move
writer_excludes_readers_example =
    writer_excludes_readers {slots = 1} (omega arith) (omega arith) excluded.reach refl 1 0
      (omega arith) (omega arith)

-- Thread 0 writes, and thread 1 has called `lock_exclusive`.
abbrev contended : Run (move 1) 2 initial
contended = run (move 1) 2 initial (
    (0, lock_exclusive)
    ∷ (0, lock_exclusive)
    ∷ (0, lock_exclusive)
    ∷ (0, lock_exclusive)
    ∷ (1, lock_exclusive)
    ∷ [])

second_writer_passes_example :
    let t = solo (move 1) 1 lock_exclusive (1 + 3) contended.last in
    (t.pc 1 ≡ writing)
    × (t.pc 0 ≡ writing)
    × (t.mem ≡ contended.last.mem)
    × ((l : ℕ) → l ≢ 1 → t.pc l ≡ contended.last.pc l)
unfolding run move
second_writer_passes_example =
    second_writer_passes 1 1 lock_exclusive 0 contended.last (omega arith) refl refl (λ k lt. refl)
      refl

-- From there both threads write.
abbrev both : Run (move 1) 2 initial
both = run (move 1) 2 initial (
    (0, lock_exclusive)
    ∷ (0, lock_exclusive)
    ∷ (0, lock_exclusive)
    ∷ (0, lock_exclusive)
    ∷ (1, lock_exclusive)
    ∷ (1, lock_exclusive)
    ∷ (1, lock_exclusive)
    ∷ (1, lock_exclusive)
    ∷ (1, lock_exclusive)
    ∷ [])

both_write : (both.last.pc 0 ≡ writing) × (both.last.pc 1 ≡ writing)
unfolding run move
both_write = (refl, refl)
