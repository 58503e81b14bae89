-- ===== src/Queue/MpscLinked/Tests.antt =====
-- `mpsc_queue` on schedules of a consumer and two producers.
use hope_threading.Prelude.{
  zero, suc, Bool, false, ℕ, ◌≤◌, ◌<◌, ◌≡◌, refl, ◌⊎◌, ◌↔◌, true, some, [], ◌∷◌, arith, length,
  get_elem?,
}
use hope_threading.Threads.{Run, run}
use hope_threading.Queue.MpscLinked.{
  destroy, nothing, new, move, popped, enqueue, try_dequeue, enqueue_exchange,
}
use hope_threading.Queue.MpscLinked.Invariant.{leftover, one_consumer_move}
use hope_threading.Queue.MpscLinked.Keeps.{initial}
use hope_threading.Queue.Destroy.{finished}
use hope_threading.Queue.MpscLinked.Freed.{AtRest, destroy_frees_all}
use hope_threading.Queue.MpscLinked.Safety.{touched, nodes_live, returned_in_order}

-- Thread 1 has entered 5 and linked it, thread 2 has entered 6, and the consumer is about to delete.
abbrev one_taken : Run (one_consumer_move {A = ℕ} 0) 3 (initial 0 3)
one_taken = run (one_consumer_move {A = ℕ} 0) 3 (initial 0 3) (
    (1, enqueue 5)
    ∷ (1, enqueue 5)
    ∷ (1, enqueue 5)
    ∷ (1, enqueue 5)
    ∷ (2, enqueue 6)
    ∷ (2, enqueue 6)
    ∷ (2, enqueue 6)
    ∷ (0, try_dequeue)
    ∷ (0, try_dequeue)
    ∷ (0, try_dequeue)
    ∷ (0, try_dequeue)
    ∷ [])

nodes_live_example :
    ((i k : ℕ)
      → i < 3
      → touched one_taken.last.mem (one_taken.last.pc i) ≡ some k
      → one_taken.last.mem.live k ≡ true)
    × ((k : ℕ)
        → one_taken.last.mem.live k ≡ true
        → ((one_taken.last.mem.tail ≤ k) × (k ≤ one_taken.last.mem.head))
          ⊎ (leftover (one_taken.last.pc 0) ≡ some k))
    × ((i : ℕ)
        → i < 3
        → (one_taken.last.mem.built i ≡ true)
          ↔ ((v : ℕ) × (one_taken.last.pc i ≡ enqueue_exchange v)))
nodes_live_example = nodes_live 0 one_taken.reach

returned_in_order_example :
    (get_elem? one_taken.last.mem.entered 0 ≡ some 5)
    × (1 ≡ one_taken.last.mem.tail)
    × (one_taken.last.mem.tail ≤ one_taken.last.mem.head)
    × (length one_taken.last.mem.entered ≡ one_taken.last.mem.head)
unfolding run move popped new
returned_in_order_example = returned_in_order 0 one_taken.reach 0 5 (omega arith) refl

-- 5 has been added, and the consumer has never looked.
abbrev one_left : Run (one_consumer_move {A = ℕ} 0) 2 (initial 0 2)
one_left =
    run (one_consumer_move {A = ℕ} 0) 2 (initial 0 2)
      ((1, enqueue 5) ∷ (1, enqueue 5) ∷ (1, enqueue 5) ∷ (1, enqueue 5) ∷ [])

one_left-AtRest : AtRest 0 one_left.reach
unfolding run move new
one_left-AtRest zero lt = (nothing, refl)
one_left-AtRest (suc zero) lt = (nothing, refl)
one_left-AtRest (suc (suc j)) lt = absurd (omega (arith, lt))

destroy_frees_all_example :
    (after : ℕ → Bool) × (destroy 2 one_left.last.mem ≡ finished after)
    × ((k : ℕ) → after k ≡ false)
unfolding run move new
destroy_frees_all_example =
    destroy_frees_all 0 one_left.reach 2 (omega arith) one_left-AtRest (omega arith)
