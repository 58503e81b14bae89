-- ===== src/Queue/Sutter/Tests.antt =====
-- `sutter_queue` on a schedule of its consumer, thread 0, and its producer, thread 1.
use hope_threading.Prelude.{ℕ, ◌+◌, ◌≤◌, ◌≡◌, ◌≢◌, true, some, [], ◌∷◌}
use hope_threading.Threads.{Run, run}
use hope_threading.Queue.Sutter.{enqueue, dequeue, dequeue_read, null_read}
use hope_threading.Queue.Sutter.Invariant.{two_sided_move, pending}
use hope_threading.Queue.Sutter.Reached.{initial}
use hope_threading.Queue.Sutter.Safety.{touched, nodes_allocated}

-- The producer has added 5, and the consumer is about to move the divider.
abbrev one_read : Run (two_sided_move {A = ℕ} 0) 2 (initial 0)
one_read = run (two_sided_move 0) 2 (initial 0) (
    (1, enqueue 5)
    ∷ (1, enqueue 5)
    ∷ (1, enqueue 5)
    ∷ (0, dequeue)
    ∷ (0, dequeue)
    ∷ (0, dequeue)
    ∷ (0, dequeue)
    ∷ [])

nodes_allocated_example :
    ((k : ℕ)
      → touched one_read.last.mem (one_read.last.pc 1) ≡ some k
      → one_read.last.mem.live k ≡ true)
    × ((d : ℕ)
        → one_read.last.pc 0 ≡ dequeue_read d
        → (p : ℕ) × (one_read.last.mem.next d ≡ some p)
          × (one_read.last.mem.live d ≡ true)
          × (one_read.last.mem.live p ≡ true))
    × (one_read.last.pc 0 ≢ null_read)
    × (one_read.last.pc 1 ≢ null_read)
    × ((k : ℕ)
        → one_read.last.mem.live k ≡ true
        → (one_read.last.mem.first ≤ k)
          × (k ≤ one_read.last.mem.last + pending (one_read.last.pc 1)))
nodes_allocated_example = nodes_allocated 0 one_read.reach
