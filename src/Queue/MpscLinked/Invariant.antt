-- ===== src/Queue/MpscLinked/Invariant.antt =====
-- What holds of the chain of nodes in each reachable state, where thread 0 alone takes.
use hope_threading.Prelude.{
  ℕ, zero, suc, ◌+◌, ◌≤◌, ◌<◌, ◌≡◌, ◌⊎◌, true, Option, none, some, length, get_elem?,
}
use hope_threading.Threads.{Mover}
use hope_threading.Queue.MpscLinked.{
  Queue, Place, Call, move, enqueue, try_dequeue, idle, enqueue_new, enqueue_exchange, enqueue_link,
  dequeue_load, dequeue_read, dequeue_move, dequeue_delete,
}

module _ {A : Type 0} where
  -- A client of which only thread 0 calls `try_dequeue`, and nothing else.
  abbrev permit : A → ℕ → Call A → Call A
  permit blank zero c = try_dequeue
  permit blank (suc i) (enqueue v) = enqueue v
  permit blank (suc i) try_dequeue = enqueue blank

  abbrev pub one_consumer_move : A → Mover (Call A) (Queue A) (Place A)
  one_consumer_move blank c i = move blank (permit blank i c) i

  -- What the place of thread `j` says of the nodes.
  abbrev pub At : Queue A → ℕ → Place A → Type 0
  At q j (idle r) = Unit
  At q j (enqueue_new v) = 0 < j
  At q j (enqueue_exchange v) = (0 < j) × (q.built j ≡ true)
  At q j (enqueue_link a b) =
      (0 < j) × (b ≡ a + 1) × (q.tail ≤ a) × (a < q.head) × (q.next a ≡ none) × (q.linker a ≡ j)
  At q j dequeue_load = j ≡ 0
  At q j (dequeue_read p) = (j ≡ 0) × (q.next q.tail ≡ some p)
  At q j (dequeue_move p v) =
      (j ≡ 0) × (q.next q.tail ≡ some p) × (get_elem? q.entered q.tail ≡ some v)
  At q j (dequeue_delete old v) =
      (j ≡ 0) × (old + 1 ≡ q.tail) × (q.live old ≡ true) × (get_elem? q.entered old ≡ some v)

  -- The node that the consumer has still to delete.
  abbrev pub leftover : Place A → Option ℕ
  leftover (dequeue_delete old v) = some old
  leftover _ = none

  -- The chain from the tail to the head, of which a link is missing while its thread has still to make
  -- it; and nothing else is allocated.
  pub record Inv (n : ℕ) (q : Queue A) (pc : ℕ → Place A) : Type 0 where
    pub order : q.tail ≤ q.head
    pub counted : length q.entered ≡ q.head
    pub alive : (k : ℕ) → q.tail ≤ k → k ≤ q.head → q.live k ≡ true
    pub dead :
        (k : ℕ) → q.live k ≡ true → ((q.tail ≤ k) × (k ≤ q.head)) ⊎ (leftover (pc 0) ≡ some k)
    pub unlinked : (k : ℕ) → q.head ≤ k → q.next k ≡ none
    pub linked :
        (k : ℕ)
        → q.tail ≤ k
        → k < q.head
        → (q.next k ≡ some (k + 1))
          ⊎ ((q.next k ≡ none) × (q.linker k < n) × (pc (q.linker k) ≡ enqueue_link k (k + 1)))
    pub private : (j : ℕ) → q.built j ≡ true → (v : A) × (pc j ≡ enqueue_exchange v)
    pub values : (k : ℕ) → q.tail ≤ k → k < q.head → get_elem? q.entered k ≡ some (q.value (k + 1))
    pub places : (j : ℕ) → j < n → At q j (pc j)
