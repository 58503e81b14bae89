-- ===== src/Queue/MpscBuffered/Tests.antt =====
-- A buffered `mpsc_queue` of numbers: two items go in and out, and two more go in.
use hope_threading.Prelude.{ℕ, ◌≡◌, refl, none, some, List, [], ◌∷◌}
use hope_threading.Queue.MpscBuffered.{Queue, Call, enqueue_call, dequeue_call, after_calls}
use hope_threading.Queue.MpscBuffered.Reuse.{items_after, reuses_nodes}

-- The last call first.
abbrev calls : List (Call ℕ)
calls =
    dequeue_call
    ∷ enqueue_call 8
    ∷ enqueue_call 7
    ∷ dequeue_call
    ∷ dequeue_call
    ∷ enqueue_call 6
    ∷ enqueue_call 5
    ∷ dequeue_call
    ∷ []

calls_items :
    ((items_after calls).results ≡ none ∷ some 5 ∷ some 6 ∷ some 7 ∷ [])
    × ◌≡◌ {A = ℕ} (items_after calls).nodes 3
calls_items = (refl, refl)

reuses_nodes_example :
    (q : Queue ℕ) × (after_calls 0 calls ≡ some (q, (items_after calls).results))
    × (q.allocated ≡ (items_after calls).nodes)
reuses_nodes_example = reuses_nodes 0 calls
