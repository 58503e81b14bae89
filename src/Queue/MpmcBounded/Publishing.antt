-- ===== src/Queue/MpmcBounded/Publishing.antt =====
-- The accesses of the item and the stores of the sequence number in `mpmc_bounded_queue`, by a thread
-- that has a position, keep its invariant.
use hope_threading.Prelude.{
  ℕ, ◌+◌, ◌%◌, ◌≤◌, ◌<◌, ◌≡◌, sym, ap, ◌≢◌, some, arith, ℕ_discrete, get_elem?,
}
use hope_threading.Threads.{update}
use hope_threading.Queue.Slots.{slot_round, slots_apart}
use hope_threading.Queue.MpmcBounded.{
  Queue, Place, enqueue_exchange, enqueue_write, enqueue_publish, dequeue_exchange, dequeue_read,
  dequeue_publish,
}
use hope_threading.Queue.MpmcBounded.Invariant.{
  cell, item_at, At, Shape, Entering, Leaving, entering, leaving,
}

module _ {A : Type 0} (size : ℕ) (two : 2 ≤ size) (q : Queue A) (shape : Shape size q)
    (pos : ℕ) where
  open shape use {order, room, counted, full, free}

  cell_round : (a : ℕ) → cell size q (a + size) ≡ cell size q a
  cell_round a = ap q.sequence (slot_round size a)

  apart : (a : ℕ) → pos ≢ a → pos < a + size → a < pos + size → pos % size ≢ a % size
  apart = slots_apart size pos

  -- `pushed->data = …`
  module _ (v : A) (own : Entering size q pos) (own_value : get_elem? q.entered pos ≡ some v) where
    abbrev written : Queue A
    written = record q { item = update q.item (pos % size) v }

    pub write-Shape : Shape size written
    write-Shape = record {
      order = order;
      room = room;
      counted = counted;
      full = λ a lo hi. elim (ℕ_discrete pos a) [
        | yes e ↦ ground (arith, e)
        | no ne ↦ ground (arith, full a, apart a, room)
      ];
      free = free;
    }

    pub write-own : At size written (enqueue_publish pos)
    write-own = ground arith

    pub write-At : (p : Place A) → entering p ≢ some pos → At size q p → At size written p
    write-At (enqueue_publish a) ne at = ground (arith, apart a, room)
    write-At (dequeue_read a) ne at = ground (arith, apart a)
    write-At p ne at = at

  -- `pushed->sequence.store(pos + 1, …)`
  module _ (own : Entering size q pos)
      (own_item : get_elem? q.entered pos ≡ some (item_at size q pos)) where
    abbrev published : Queue A
    published = record q { sequence = update q.sequence (pos % size) (pos + 1) }

    pub publish_in-Shape : Shape size published
    publish_in-Shape = record {
      order = order;
      room = room;
      counted = counted;
      full = λ a lo hi. elim (ℕ_discrete pos a) [
        | yes e ↦ ground (arith, e, own_item)
        | no ne ↦ ground (arith, full a, apart a, room)
      ];
      free = λ a lo hi. ground (arith, free a, apart a, room);
    }

    pub publish_in-At : (p : Place A) → entering p ≢ some pos → At size q p → At size published p
    publish_in-At (enqueue_exchange u a) ne at =
        (at.0, λ e. ground (arith, at.1 e, apart a, room, cell_round pos))
    publish_in-At (enqueue_write u a) ne at = ground (arith, apart a, room)
    publish_in-At (enqueue_publish a) ne at = ground (arith, apart a, room)
    publish_in-At (dequeue_exchange a) ne at = (at.0, λ e. ground (arith, at.1 e, apart a, room))
    publish_in-At (dequeue_read a) ne at = ground (arith, apart a, room)
    publish_in-At (dequeue_publish u a) ne at = ground (arith, apart a, room)
    publish_in-At p ne at = at

  -- `popped->sequence.store(pos + m_buffer_mask + 1, …)`
  module _ (own : Leaving size q pos) where
    abbrev vacated : Queue A
    vacated = record q { sequence = update q.sequence (pos % size) (pos + size) }

    round : (a : ℕ) → a ≢ pos + size → a < pos + size + size → pos < a → pos % size ≢ a % size
    round a ne lo hi =
        rw (← slot_round size pos)
          (slots_apart size (pos + size) a (λ e. ne (sym e)) (omega arith) lo)

    pub publish_out-Shape : Shape size vacated
    publish_out-Shape = record {
      order = order;
      room = room;
      counted = counted;
      full = λ a lo hi. ground (arith, full a, apart a, room);
      free = λ a lo hi. elim (ℕ_discrete a (pos + size)) [
        | yes e ↦ ground (arith, e, slot_round size pos)
        | no ne ↦ ground (arith, free a, round a, order)
      ];
    }

    pub publish_out-At : (p : Place A) → leaving p ≢ some pos → At size q p → At size vacated p
    publish_out-At (enqueue_exchange u a) ne at =
        (at.0, λ e. ground (arith, at.1 e, apart a, order, cell_round pos))
    publish_out-At (enqueue_write u a) ne at = ground (arith, apart a, room)
    publish_out-At (enqueue_publish a) ne at = ground (arith, apart a, room)
    publish_out-At (dequeue_exchange a) ne at =
        (at.0, λ e. ground (arith, at.1 e, apart a, order, cell_round pos))
    publish_out-At (dequeue_read a) ne at = ground (arith, apart a, order)
    publish_out-At (dequeue_publish u a) ne at = ground (arith, apart a, order)
    publish_out-At p ne at = at
