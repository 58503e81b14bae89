-- ===== src/Queue/Sutter/Invariant.antt =====
-- What holds of the chain in each reachable state, where thread 0 takes and thread 1 adds.
use hope_threading.Prelude.{ℕ, zero, suc, ◌+◌, ◌≤◌, ◌<◌, ◌≡◌, true, none, some, length, get_elem?}
use hope_threading.Threads.{Mover}
use hope_threading.Queue.Sutter.{
  Queue, Place, Call, move, enqueue, dequeue, idle, enqueue_link, enqueue_publish, enqueue_load,
  enqueue_delete, dequeue_divider, dequeue_last, dequeue_read, dequeue_store,
}

module _ {A : Type 0} where
  -- Clients of which thread 0 calls `dequeue`, and the other one `enqueue`.
  abbrev permit : A → ℕ → Call A → Call A
  permit blank zero c = dequeue
  permit blank (suc i) (enqueue v) = enqueue v
  permit blank (suc i) dequeue = enqueue blank

  abbrev pub two_sided_move : A → Mover (Call A) (Queue A) (Place A)
  two_sided_move blank c i = move (permit blank i c) i

  -- Whether the producer has made a node that is not yet the last one.
  abbrev pub pending : Place A → ℕ
  pending (enqueue_publish l) = 1
  pending _ = 0

  -- What the place of the producer, and of the consumer, says of the nodes.
  abbrev pub Produces : Queue A → Place A → Type 0
  Produces q (idle r) = Unit
  Produces q (enqueue_link v) = Unit
  Produces q (enqueue_publish l) = l ≡ q.last
  Produces q enqueue_load = Unit
  Produces q (enqueue_delete d) = (q.first ≤ d) × (d ≤ q.divider)
  Produces q _ = ⊥

  abbrev pub Consumes : Queue A → Place A → Type 0
  Consumes q (idle r) = Unit
  Consumes q dequeue_divider = Unit
  Consumes q (dequeue_last d) = d ≡ q.divider
  Consumes q (dequeue_read d) = (d ≡ q.divider) × (d < q.last)
  Consumes q (dequeue_store p v) =
      (p ≡ q.divider + 1) × (p ≤ q.last) × (get_elem? q.entered q.divider ≡ some v)
  Consumes q _ = ⊥

  -- The chain from the first node to the newest; nothing else is allocated.
  pub record Chain (q : Queue A) (extra : ℕ) : Type 0 where
    pub before : q.first ≤ q.divider
    pub behind : q.divider ≤ q.last
    pub counted : length q.entered ≡ q.last + extra
    pub made : q.fresh ≡ q.last + extra + 1
    pub linked : (k : ℕ) → q.first ≤ k → k < q.last + extra → q.next k ≡ some (k + 1)
    pub ends : q.next (q.last + extra) ≡ none
    pub alive : (k : ℕ) → q.first ≤ k → k ≤ q.last + extra → q.live k ≡ true
    pub dead : (k : ℕ) → q.live k ≡ true → (q.first ≤ k) × (k ≤ q.last + extra)
    pub values :
        (k : ℕ)
        → q.divider ≤ k
        → k < q.last + extra
        → get_elem? q.entered k ≡ some (q.value (k + 1))

  pub record Inv (q : Queue A) (producer consumer : Place A) : Type 0 where
    pub chain : Chain q (pending producer)
    pub produces : Produces q producer
    pub consumes : Consumes q consumer
