-- ===== src/Queue/MpscOverlap/Invariant.antt =====
-- What the positions, the flags and the places of the threads say of one another, where thread 0 alone
-- takes and no exchange has found the queue full.
use hope_threading.Prelude.{
  ℕ, zero, suc, ◌+◌, ◌%◌, ◌≤◌, ◌<◌, ◌≡◌, ◌⊎◌, ◌≢◌, true, false, Option, none, some, length,
  get_elem?,
}
use hope_threading.Threads.{Mover}
use hope_threading.Queue.MpscOverlap.{
  Queue, Place, Call, move, try_enqueue, try_dequeue, idle, enqueue_load, enqueue_test,
  enqueue_exchange, enqueue_write, enqueue_ready, dequeue_test, dequeue_look, dequeue_read,
  dequeue_clear, dequeue_move,
}

module _ {A : Type 0} (size : ℕ) where
  -- A client of which only thread 0 calls `try_dequeue`, and nothing else.
  abbrev permit : A → ℕ → Call A → Call A
  permit blank zero c = try_dequeue
  permit blank (suc i) (try_enqueue v) = try_enqueue v
  permit blank (suc i) try_dequeue = try_enqueue blank

  abbrev pub sole_move : A → Mover (Call A) (Queue A) (Place A)
  sole_move blank c i q p = move size (permit blank i c) i q p

  -- Whether the consumer has given its cell back and has still to move the tail.
  abbrev pub gone : Place A → ℕ
  gone (dequeue_move v) = 1
  gone _ = 0

  -- The position that a producer has taken and not published yet.
  abbrev pub entering : Place A → Option ℕ
  entering (enqueue_write v pos) = some pos
  entering (enqueue_ready pos) = some pos
  entering _ = none

  abbrev pub Entering : Queue A → ℕ → ℕ → Type 0
  Entering q low pos = (low ≤ pos) × (pos < q.head) × (q.ready (pos % size) ≡ false)

  -- What the place of thread `j` says, where `low` is the first position that has not been given back.
  abbrev pub At : Queue A → ℕ → ℕ → Place A → Type 0
  At q low j (idle r) = Unit
  At q low j (enqueue_load v) = 0 < j
  At q low j (enqueue_test v pos) = (0 < j) × (pos ≤ q.head)
  At q low j (enqueue_exchange v pos) = (0 < j) × (pos ≤ q.head)
  At q low j (enqueue_write v pos) =
      (0 < j) × Entering q low pos × (get_elem? q.entered pos ≡ some v)
  At q low j (enqueue_ready pos) =
      (0 < j) × Entering q low pos × (get_elem? q.entered pos ≡ some (q.value (pos % size)))
  At q low j dequeue_test = j ≡ 0
  At q low j dequeue_look = (j ≡ 0) × (q.tail < q.head)
  At q low j dequeue_read = (j ≡ 0) × (q.tail < q.head) × (q.ready (q.tail % size) ≡ true)
  At q low j (dequeue_clear v) =
      (j ≡ 0)
      × (q.tail < q.head)
      × (q.ready (q.tail % size) ≡ true)
      × (get_elem? q.entered q.tail ≡ some v)
  At q low j (dequeue_move v) =
      (j ≡ 0)
      × (q.tail < q.head)
      × (q.ready (q.tail % size) ≡ false)
      × (get_elem? q.entered q.tail ≡ some v)

  pub record Shape (q : Queue A) (low : ℕ) : Type 0 where
    pub bottom : (q.tail ≤ low) × (low ≤ q.tail + 1)
    pub order : low ≤ q.head
    pub room : q.head ≤ q.tail + size
    pub counted : length q.entered ≡ q.head
    pub values :
        (p : ℕ)
        → low ≤ p
        → p < q.head
        → q.ready (p % size) ≡ true
        → get_elem? q.entered p ≡ some (q.value (p % size))
    pub free : (p : ℕ) → q.head ≤ p → p < q.tail + size → q.ready (p % size) ≡ false

  -- What one move of thread `i` leaves.
  pub record Moved (i : ℕ) (q : Queue A) (low : ℕ) (p : Place A) (q' : Queue A) (low' : ℕ)
      (p' : Place A) : Type 0 where
    pub shape : Shape q' low'
    pub own : At q' low' i p'
    pub others :
        (j : ℕ) (r : Place A)
        → i ≢ j
        → ((pos : ℕ) → entering p ≡ some pos → entering r ≢ some pos)
        → (j ≡ 0 → low ≡ q.tail + gone r)
        → At q low j r
        → At q' low' j r
    pub fresh : (pos : ℕ) → entering p' ≡ some pos → (entering p ≡ some pos) ⊎ (q.head ≤ pos)
    pub small : q'.head ≤ q.head + 1
    pub below : q.head ≤ q'.head
    pub lowest : (i ≡ 0 → low' ≡ q'.tail + gone p') × (0 < i → (low' ≡ low) × (q'.tail ≡ q.tail))
