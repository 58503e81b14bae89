-- ===== src/Sync/SeqLock/Tests.antt =====
-- `seq_lock` with values of two units on schedules of two threads, and the theorems there.
use hope_threading.Prelude.{ℕ, ◌≡◌, refl, ◌≢◌, [], ◌∷◌, arith}
use hope_threading.Threads.{update, Run, run, moves}
use hope_threading.Sync.SeqLock.{Value, store_copy, store, load, move}
use hope_threading.Sync.SeqLock.Invariant.{Agree, one_writer_move}
use hope_threading.Sync.SeqLock.Keeps.{initial}
use hope_threading.Sync.SeqLock.Safety.{even_load_consistent}

abbrev old : Value
old q = 1

abbrev new : Value
new q = 7

abbrev blank : Value
blank q = 0

-- Thread 1 has loaded both units and is about to compare, and thread 0 has called `store`.
abbrev quiet : Run (one_writer_move 2 0) 2 (initial old)
quiet = run (one_writer_move 2 0) 2 (initial old) (
    (1, load blank)
    ∷ (0, store new)
    ∷ (1, load blank)
    ∷ (1, load blank)
    ∷ (1, load blank)
    ∷ (1, load blank)
    ∷ [])

even_load_consistent_example :
    Agree 2 (update (update blank 0 1) 1 1) quiet.last.mem.val
    × ((u : Value) (q k : ℕ) → quiet.last.pc 0 ≢ store_copy u q k)
unfolding run move moves
even_load_consistent_example =
    even_load_consistent quiet.reach (omega arith) 1 0 (update (update blank 0 1) 1 1) (omega arith)
      refl refl refl

-- Thread 0 has written the first unit of `new`, and thread 1 begins to load.
abbrev half : Run (move 2) 2 (initial old)
half =
    run (move 2) 2 (initial old)
      ((0, store new) ∷ (0, store new) ∷ (0, store new) ∷ (0, store new) ∷ (1, load blank) ∷ [])

half_units : (half.last.mem.val 0 ≡ 7) × (half.last.mem.val 1 ≡ 1)
unfolding run move
half_units = (refl, refl)
