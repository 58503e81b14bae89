-- ===== src/Queue/SpscLinked/Invariant.antt =====
-- What holds of the chain in each reachable state, where thread 0 takes and thread 1 adds.
use hope_threading.Prelude.{ℕ, zero, suc, ◌+◌, ◌≤◌, ◌<◌, ◌≡◌, ◌≢◌, none, some, length, get_elem?}
use hope_threading.Threads.{Mover}
use hope_threading.Queue.SpscLinked.{
  Queue, Place, Call, move, enqueue, try_dequeue, idle, alloc_test, alloc_load, alloc_again,
  alloc_cached, alloc_new, enqueue_link, dequeue_load, dequeue_read, dequeue_store,
}

module _ {A : Type 0} where
  -- Clients of which thread 0 calls `try_dequeue`, and the other one `enqueue`.
  abbrev permit : A → ℕ → Call A → Call A
  permit blank zero c = try_dequeue
  permit blank (suc i) (enqueue v) = enqueue v
  permit blank (suc i) try_dequeue = enqueue blank

  abbrev pub two_sided_move : A → Mover (Call A) (Queue A) (Place A)
  two_sided_move blank c i = move (permit blank i c) i

  -- A node that the producer has and the chain has not.
  pub record Private (q : Queue A) (n : ℕ) (v : A) : Type 0 where
    pub allocated : n < q.fresh
    pub apart : (k : ℕ) → q.first_pos ≤ k → k ≤ q.head_pos → q.at k ≢ n
    pub holds : q.value n ≡ v
    pub ends : q.next n ≡ none

  -- What the place of the producer, and of the consumer, says of the nodes.
  abbrev pub Produces : Queue A → Place A → Type 0
  Produces q (idle r) = Unit
  Produces q (alloc_test v) = Unit
  Produces q (alloc_load v) = Unit
  Produces q (alloc_again v) = Unit
  Produces q (alloc_cached v) = q.first_pos < q.copy_pos
  Produces q (alloc_new v) = Unit
  Produces q (enqueue_link n v) = Private q n v
  Produces q _ = ⊥

  abbrev pub Consumes : Queue A → Place A → Type 0
  Consumes q (idle r) = Unit
  Consumes q dequeue_load = Unit
  Consumes q dequeue_read = q.tail_pos < q.head_pos
  Consumes q (dequeue_store v) =
      (q.tail_pos < q.head_pos) × (get_elem? q.entered q.tail_pos ≡ some v)
  Consumes q _ = ⊥

  -- The chain from the first node to the head, of nodes that are allocated and differ.
  pub record Chain (q : Queue A) : Type 0 where
    pub cached : q.first_pos ≤ q.copy_pos
    pub copied : q.copy_pos ≤ q.tail_pos
    pub order : q.tail_pos ≤ q.head_pos
    pub first_at : q.first ≡ q.at q.first_pos
    pub copy_at : q.tail_copy ≡ q.at q.copy_pos
    pub tail_at : q.tail ≡ q.at q.tail_pos
    pub head_at : q.head ≡ q.at q.head_pos
    pub counted : length q.entered ≡ q.head_pos
    pub allocated : (k : ℕ) → q.first_pos ≤ k → k ≤ q.head_pos → q.at k < q.fresh
    pub distinct : (j k : ℕ) → q.first_pos ≤ j → j < k → k ≤ q.head_pos → q.at j ≢ q.at k
    pub linked : (k : ℕ) → q.first_pos ≤ k → k < q.head_pos → q.next (q.at k) ≡ some (q.at (k + 1))
    pub ends : q.next (q.at q.head_pos) ≡ none
    pub values :
        (k : ℕ)
        → q.tail_pos ≤ k
        → k < q.head_pos
        → get_elem? q.entered k ≡ some (q.value (q.at (k + 1)))

  pub record Inv (q : Queue A) (producer consumer : Place A) : Type 0 where
    pub chain : Chain q
    pub produces : Produces q producer
    pub consumes : Consumes q consumer
