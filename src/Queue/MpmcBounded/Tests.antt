-- ===== src/Queue/MpmcBounded/Tests.antt =====
-- `mpmc_bounded_queue` of two cells on schedules of two threads, and the theorems there.
use hope_threading.Prelude.{
  ℕ, ◌+◌, ◌%◌, ◌≤◌, ◌<◌, ◌≡◌, refl, ◌≢◌, inl, true, some, List, [], ◌∷◌, ◌++◌, arith, length,
  get_elem?,
}
use hope_threading.Threads.{Mover, Run, run, moves}
use hope_threading.Queue.MpmcBounded.{
  Place, Queue, idle, enqueued, dequeue_publish, Call, try_enqueue, try_dequeue, new, move,
}
use hope_threading.Queue.MpmcBounded.Invariant.{leaving}
use hope_threading.Queue.MpmcBounded.Keeps.{initial}
use hope_threading.Queue.MpmcBounded.Safety.{dequeued_in_order, bounded, no_data_race}

abbrev ring : Mover (Call ℕ) (Queue ℕ) (Place ℕ)
ring = move 2

-- A whole call of one thread.
abbrev enqueue_by : ℕ → ℕ → List (ℕ × Call ℕ)
enqueue_by i v =
    (i, try_enqueue v)
    ∷ (i, try_dequeue)
    ∷ (i, try_dequeue)
    ∷ (i, try_dequeue)
    ∷ (i, try_dequeue)
    ∷ (i, try_dequeue)
    ∷ []

-- Thread 0 has entered 5 and 6, and thread 1 is about to return the first.
abbrev returning : Run ring 2 (initial 0)
returning = run ring 2 (initial 0) (
    enqueue_by 0 5
    ++ enqueue_by 0 6
    ++ (1, try_dequeue)
      ∷ (1, try_dequeue)
      ∷ (1, try_dequeue)
      ∷ (1, try_dequeue)
      ∷ (1, try_dequeue)
      ∷ [])

returning_state :
    (returning.last.pc 1 ≡ dequeue_publish 5 0) × (returning.last.pc 0 ≡ idle (enqueued true))
unfolding run move new
returning_state = (refl, refl)

dequeued_in_order_example :
    (get_elem? returning.last.mem.entered 0 ≡ some 5)
    × (0 < returning.last.mem.dequeue_pos)
    × ((j : ℕ) → j < 2 → leaving (returning.last.pc j) ≡ some 0 → 1 ≡ j)
unfolding run move moves new
dequeued_in_order_example =
    dequeued_in_order {size = 2} 0 (omega arith) (omega arith) returning.reach (omega arith) 1 0 5
      (omega arith) refl

bounded_example :
    (returning.last.mem.dequeue_pos ≤ returning.last.mem.enqueue_pos)
    × (returning.last.mem.enqueue_pos ≤ returning.last.mem.dequeue_pos + 2)
    × (length returning.last.mem.entered ≡ returning.last.mem.enqueue_pos)
unfolding run move moves new
bounded_example = bounded {size = 2} 0 (omega arith) (omega arith) returning.reach (omega arith)

-- Thread 0 is about to write its item and thread 1 to write another.
abbrev racing : Run ring 2 (initial 0)
racing = run ring 2 (initial 0) (
    (0, try_enqueue 5)
    ∷ (1, try_enqueue 6)
    ∷ (0, try_dequeue)
    ∷ (0, try_dequeue)
    ∷ (0, try_dequeue)
    ∷ (1, try_dequeue)
    ∷ (1, try_dequeue)
    ∷ (1, try_dequeue)
    ∷ [])

no_data_race_example : 0 % 2 ≢ 1 % 2
unfolding run move moves new
no_data_race_example =
    no_data_race {size = 2} 0 (omega arith) (omega arith) racing.reach (omega arith) 0 1 0 1 5 6
      (omega arith) (omega arith) (omega arith) refl (inl refl)
