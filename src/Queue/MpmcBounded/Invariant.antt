-- ===== src/Queue/MpmcBounded/Invariant.antt =====
-- The invariant of `mpmc_bounded_queue`: what the positions, the sequence numbers and the places of
-- the threads say of one another.
use hope_threading.Prelude.{ℕ, ◌+◌, ◌%◌, ◌≤◌, ◌<◌, ◌≡◌, ◌⊎◌, Option, none, some, length, get_elem?}
use hope_threading.Queue.MpmcBounded.{
  Queue, Place, enqueue_look, enqueue_exchange, enqueue_write, enqueue_publish, dequeue_look,
  dequeue_exchange, dequeue_read, dequeue_publish,
}

module _ {A : Type 0} (size : ℕ) (q : Queue A) where
  -- The cell of a position.
  abbrev pub cell : ℕ → ℕ
  cell pos = q.sequence (pos % size)

  abbrev pub item_at : ℕ → A
  item_at pos = q.item (pos % size)

  -- A position that a thread has taken and not published yet.
  abbrev pub Entering : ℕ → Type 0
  Entering pos = (q.dequeue_pos ≤ pos) × (pos < q.enqueue_pos) × (cell pos ≡ pos)

  abbrev pub Leaving : ℕ → Type 0
  Leaving pos = (pos < q.dequeue_pos) × (q.enqueue_pos ≤ pos + size) × (cell pos ≡ pos + 1)

  -- What holds at a place of a thread.
  abbrev pub At : Place A → Type 0
  At (enqueue_look v pos) = pos ≤ q.enqueue_pos
  At (enqueue_exchange v pos) = (pos ≤ q.enqueue_pos) × ((pos ≡ q.enqueue_pos) → cell pos ≡ pos)
  At (enqueue_write v pos) = Entering pos × (get_elem? q.entered pos ≡ some v)
  At (enqueue_publish pos) = Entering pos × (get_elem? q.entered pos ≡ some (item_at pos))
  At (dequeue_look pos) = pos ≤ q.dequeue_pos
  At (dequeue_exchange pos) = (pos ≤ q.dequeue_pos) × ((pos ≡ q.dequeue_pos) → cell pos ≡ pos + 1)
  At (dequeue_read pos) = Leaving pos × (get_elem? q.entered pos ≡ some (item_at pos))
  At (dequeue_publish v pos) = Leaving pos × (get_elem? q.entered pos ≡ some v)
  At p = Unit

  -- A position in the queue is being written or holds its item; one behind it is free or still read.
  abbrev pub Full : ℕ → Type 0
  Full pos =
      (cell pos ≡ pos) ⊎ ((cell pos ≡ pos + 1) × (get_elem? q.entered pos ≡ some (item_at pos)))

  abbrev pub Free : ℕ → Type 0
  Free pos = (cell pos ≡ pos) ⊎ (cell pos + size ≡ pos + 1)

  pub record Shape : Type 0 where
    pub order : q.dequeue_pos ≤ q.enqueue_pos
    pub room : q.enqueue_pos ≤ q.dequeue_pos + size
    pub counted : length q.entered ≡ q.enqueue_pos
    pub full : (pos : ℕ) → q.dequeue_pos ≤ pos → pos < q.enqueue_pos → Full pos
    pub free : (pos : ℕ) → q.enqueue_pos ≤ pos → pos < q.dequeue_pos + size → Free pos

-- The position that a thread has taken, in either direction.
module _ {A : Type 0} where
  abbrev pub entering : Place A → Option ℕ
  entering (enqueue_write v pos) = some pos
  entering (enqueue_publish pos) = some pos
  entering p = none

  abbrev pub leaving : Place A → Option ℕ
  leaving (dequeue_read pos) = some pos
  leaving (dequeue_publish v pos) = some pos
  leaving p = none
