-- ===== src/Queue/SpscLinked/Tests.antt =====
-- `spsc_queue` on schedules of its consumer, thread 0, and its producer, thread 1.
use hope_threading.Prelude.{
  ℕ, Bool, false, arith, zero, suc, ◌≤◌, ◌<◌, ◌≡◌, refl, ◌≢◌, ◌↔◌, none, some, List, [], ◌∷◌,
  length, get_elem?,
}
use hope_threading.Threads.{System, Reach, Run, run, turn}
use hope_threading.Queue.SpscLinked.{
  Call, move, enter, take_cached, make_new, link, tested, read_value, store_tail, new, enqueue,
  try_dequeue, idle, nothing, destroy, constructed, Queue, Place, Result, dequeued, alloc_cached,
  enqueue_link, null_read,
}
use hope_threading.Queue.SpscLinked.Invariant.{two_sided_move}
use hope_threading.Queue.SpscLinked.Prepared.{constructed-Reach}
use hope_threading.Queue.SpscLinked.Freed.{destroy_frees_nodes}
use hope_threading.Queue.Destroy.{finished}
use hope_threading.Queue.SpscLinked.Reached.{initial}
use hope_threading.Queue.SpscLinked.Safety.{read_in_order, cached_apart, nothing_iff_empty}

-- So many moves of the producer for one item, and of the consumer.
abbrev adds : ℕ → ℕ → List (ℕ × Call ℕ) → List (ℕ × Call ℕ)
adds zero v rest = rest
adds (suc n) v rest = (1, enqueue v) ∷ adds n v rest

abbrev takes : ℕ → List (ℕ × Call ℕ) → List (ℕ × Call ℕ)
takes zero rest = rest
takes (suc n) rest = (0, try_dequeue) ∷ takes n rest

-- One item has been added, and the consumer is about to store the tail, or to look for a second item.
abbrev one_read : Run (two_sided_move {A = ℕ} 0) 2 (initial 0)
one_read = run (two_sided_move 0) 2 (initial 0) (adds 6 5 (takes 3 []))

abbrev one_taken : Run (two_sided_move {A = ℕ} 0) 2 (initial 0)
one_taken = run (two_sided_move 0) 2 (initial 0) (adds 6 5 (takes 5 []))

-- One item has been taken, and the producer is about to use its node again.
abbrev one_cached : Run (two_sided_move {A = ℕ} 0) 2 (initial 0)
one_cached = run (two_sided_move 0) 2 (initial 0) (adds 6 5 (takes 4 (adds 4 6 [])))

cached_reached : one_cached.last.pc 1 ≡ alloc_cached 6
unfolding run move enter take_cached make_new link tested read_value store_tail new
cached_reached = refl

read_in_order_example :
    (get_elem? one_read.last.mem.entered one_read.last.mem.tail_pos ≡ some 5)
    × (one_read.last.mem.tail_pos < one_read.last.mem.head_pos)
    × (length one_read.last.mem.entered ≡ one_read.last.mem.head_pos)
unfolding run move enter take_cached make_new link tested read_value store_tail new
read_in_order_example = read_in_order 0 one_read.reach 5 refl

cached_apart_example :
    ((v k : ℕ)
      → one_cached.last.pc 1 ≡ alloc_cached v
      → one_cached.last.mem.tail_pos ≤ k
      → k ≤ one_cached.last.mem.head_pos
      → one_cached.last.mem.first ≢ one_cached.last.mem.at k)
    × ((n k v : ℕ)
        → one_cached.last.pc 1 ≡ enqueue_link n v
        → one_cached.last.mem.tail_pos ≤ k
        → k ≤ one_cached.last.mem.head_pos
        → one_cached.last.mem.at k ≢ n)
    × (one_cached.last.pc 0 ≢ null_read)
    × (one_cached.last.pc 1 ≢ null_read)
cached_apart_example = cached_apart 0 one_cached.reach

nothing_iff_empty_example :
    ((turn (two_sided_move 0) 0 try_dequeue one_taken.last).pc 0 ≡ idle (dequeued none))
    ↔ (one_taken.last.mem.tail_pos ≡ length one_taken.last.mem.entered)
unfolding run move enter take_cached make_new link tested read_value store_tail new
nothing_iff_empty_example = nothing_iff_empty 0 one_taken.reach try_dequeue refl

-- The node of the item that has been taken is used again.
abbrev reused : Run (two_sided_move {A = ℕ} 0) 2 (initial 0)
reused = run (two_sided_move 0) 2 (initial 0) (adds 6 5 (takes 4 (adds 6 6 [])))

destroy_frees_nodes_example :
    (after : ℕ → Bool) × (destroy 3 reused.last.mem ≡ finished after) × ((k : ℕ) → after k ≡ false)
unfolding run move enter take_cached make_new link tested read_value store_tail new
destroy_frees_nodes_example = destroy_frees_nodes 0 reused.reach nothing 3 refl (omega arith)

constructed-Reach_example :
    (s : System (Queue ℕ) (Place ℕ)) × Reach (two_sided_move 0) 2 (initial 0) s
    × (s.mem ≡ constructed 0 3)
    × (s.pc 1 ≡ idle nothing)
    × ((r : Result ℕ) × (s.pc 0 ≡ idle r))
    × (s.mem.first_pos ≡ 0)
    × (s.mem.tail_pos ≡ 3)
    × (s.mem.head_pos ≡ 3)
    × (s.mem.fresh ≡ 4)
constructed-Reach_example = constructed-Reach 0 3
