-- ===== src/Queue/MpscOverlap/Tests.antt =====
-- `mpsc_bounded_queue` of two cells on schedules of a consumer and two producers, and the theorems
-- there.
use hope_threading.Prelude.{
  ℕ, ◌<◌, ◌≡◌, refl, inl, false, some, List, [], ◌∷◌, ◌++◌, arith, length, get_elem?, ◌↔◌, ◌≤◌, ◌+◌,
  ◌⊎◌, true,
}
use hope_threading.Threads.{Mover, Run, run, moves}
use hope_threading.Queue.MpscOverlap.{
  exchanged, Place, Queue, idle, enqueued, Call, try_enqueue, try_dequeue, new, move,
}
use hope_threading.Queue.MpscOverlap.Invariant.{sole_move}
use hope_threading.Queue.MpscOverlap.Reached.{initial}
use hope_threading.Queue.MpscOverlap.Safety.{taken_in_order, refused_iff}

abbrev ring : Mover (Call ℕ) (Queue ℕ) (Place ℕ)
ring = sole_move 2 0

-- The first four moves of a call, and the last two.
abbrev four : ℕ → ℕ → List (ℕ × Call ℕ)
four i v = (i, try_enqueue v) ∷ (i, try_dequeue) ∷ (i, try_dequeue) ∷ (i, try_dequeue) ∷ []

abbrev two : ℕ → List (ℕ × Call ℕ)
two i = (i, try_dequeue) ∷ (i, try_dequeue) ∷ []

-- The consumer has read the value that a producer has entered.
abbrev reading : Run ring 3 (initial 0)
reading = run ring 3 (initial 0) (four 1 5 ++ two 1 ++ four 0 0)

taken_in_order_example :
    (reading.last.mem.tail < reading.last.mem.head)
    × (reading.last.mem.head ≤ reading.last.mem.tail + 2 + 1)
    × (length reading.last.mem.entered ≡ reading.last.mem.head)
    × ((get_elem? reading.last.mem.entered reading.last.mem.tail ≡ some 5)
        ⊎ (reading.last.mem.overfilled ≡ true))
unfolding run move moves new exchanged
taken_in_order_example = taken_in_order 2 0 reading.reach (omega arith) (omega arith) 0 5 (inl refl)

-- A producer has loaded the head, and an item has passed through the queue since.
abbrev passed : Run ring 3 (initial 0)
passed =
    run ring 3 (initial 0)
      ((2, try_enqueue 6) ∷ (2, try_dequeue) ∷ four 1 5 ++ two 1 ++ four 0 0 ++ two 0)

-- The queue is empty again, and the call is refused.
passed_state :
    ◌≡◌ {A = ℕ} passed.last.mem.head passed.last.mem.tail
    × ((move 2 try_dequeue 2 passed.last.mem (passed.last.pc 2)).1 ≡ idle (enqueued false))
unfolding run move new exchanged
passed_state = (refl, refl)

refused_iff_example :
    ((move 2 try_dequeue 2 passed.last.mem (passed.last.pc 2)).1 ≡ idle (enqueued false))
    ↔ ((0 < passed.last.mem.tail) ⊎ (0 ≡ passed.last.mem.tail + 2 + 1))
unfolding run move moves new exchanged
refused_iff_example =
    refused_iff 2 0 passed.reach (omega arith) (omega arith) 2 0 6 try_dequeue refl

-- Three items in the two cells, of which the third has passed the test with two in the queue, and a
-- producer that has loaded the head since.
abbrev over : Run ring 3 (initial 0)
over = run ring 3 (initial 0) (
    four 1 5
    ++ two 1
    ++ four 1 6
    ++ two 1
    ++ four 2 7
    ++ two 2
    ++ (1, try_enqueue 8) ∷ (1, try_dequeue) ∷ [])

-- The consumer would find the newest of these in the cell of the first.
over_state :
    (over.last.mem.overfilled ≡ true)
    × (over.last.mem.value 0 ≡ 7)
    × ((move 2 try_dequeue 1 over.last.mem (over.last.pc 1)).1 ≡ idle (enqueued false))
unfolding run move new exchanged
over_state = (refl, refl, refl)
