-- ===== src/Queue/MpmcBounded/Taking.antt =====
-- The exchanges of `mpmc_bounded_queue` that give a position to a thread keep its invariant.
use hope_threading.Prelude.{
  ℕ, ◌+◌, ◌≤◌, ◌<◌, ◌≡◌, ap, subst, some, [], ◌∷◌, ◌++◌, arith, dec_lt, ℕ_discrete, get_elem?,
  length-append, get_elem?-append_left, get_elem?-append_length,
}
use hope_threading.Queue.Slots.{slot_round}
use hope_threading.Queue.MpmcBounded.{
  enqueue_publish, Queue, Place, enqueue_exchange, enqueue_write, dequeue_exchange, dequeue_read,
  dequeue_publish,
}
use hope_threading.Queue.MpmcBounded.Invariant.{cell, At, Shape}

module _ {A : Type 0} (size : ℕ) (two : 2 ≤ size) (q : Queue A) (shape : Shape size q) where
  open shape use {order, room, counted, full, free}

  cell_round : (pos : ℕ) → cell size q (pos + size) ≡ cell size q pos
  cell_round pos = ap q.sequence (slot_round size pos)

  -- Where the cell of the next position to enqueue at is free, the queue has room.
  room_left : cell size q q.enqueue_pos ≡ q.enqueue_pos → q.enqueue_pos < q.dequeue_pos + size
  room_left here = elim (dec_lt q.enqueue_pos (q.dequeue_pos + size)) [
    | yes lt ↦ lt
    | no ge ↦ absurd (ground (arith, full q.dequeue_pos, cell_round q.dequeue_pos))
  ]

  -- Where the cell of the next position to dequeue at is ready, the queue has an item.
  item_left : cell size q q.dequeue_pos ≡ q.dequeue_pos + 1 → q.dequeue_pos < q.enqueue_pos
  item_left here = elim (dec_lt q.dequeue_pos q.enqueue_pos) [
    | yes lt ↦ lt
    | no ge ↦ absurd (ground (arith, free q.dequeue_pos))
  ]

  module _ (v : A) (here : cell size q q.enqueue_pos ≡ q.enqueue_pos) where
    abbrev entered_one : Queue A
    entered_one = record q { enqueue_pos = q.enqueue_pos + 1; entered = q.entered ++ v ∷ [] }

    kept :
        (pos : ℕ)
        → pos < q.enqueue_pos
        → get_elem? (q.entered ++ v ∷ []) pos ≡ get_elem? q.entered pos
    kept pos lt = get_elem?-append_left q.entered (v ∷ []) pos (omega (arith, counted))

    last : get_elem? (q.entered ++ v ∷ []) q.enqueue_pos ≡ some v
    last =
        subst (λ k. get_elem? (q.entered ++ v ∷ []) k ≡ some v) counted
          (get_elem?-append_length q.entered v)

    pub take_in-Shape : Shape size entered_one
    take_in-Shape = record {
      order = omega (arith, order);
      room = omega (arith, room_left here);
      counted = omega (arith, length-append q.entered (v ∷ []), counted);
      full = λ pos lo hi. elim (ℕ_discrete pos q.enqueue_pos) [
        | yes e ↦ ground (arith, e)
        | no ne ↦ ground (arith, full pos, kept pos)
      ];
      free = λ pos lo hi. ground (arith, free pos);
    }

    pub take_in-own : At size entered_one (enqueue_write v q.enqueue_pos)
    take_in-own = ground (arith, order, last)

    pub take_in-At : (p : Place A) → At size q p → At size entered_one p
    take_in-At (enqueue_exchange u pos) at = (omega arith, λ e. absurd (omega arith))
    take_in-At (dequeue_read pos) at = ground (arith, kept pos, cell_round pos, order)
    take_in-At (dequeue_publish u pos) at = ground (arith, kept pos, cell_round pos, order)
    take_in-At (dequeue_exchange pos) at = at
    take_in-At (enqueue_write u pos) at = ground (arith, kept pos)
    take_in-At (enqueue_publish pos) at = ground (arith, kept pos)
    take_in-At p at = ground arith

  module _ (here : cell size q q.dequeue_pos ≡ q.dequeue_pos + 1) where
    abbrev left_one : Queue A
    left_one = record q { dequeue_pos = q.dequeue_pos + 1 }

    pub take_out-Shape : Shape size left_one
    take_out-Shape = record {
      order = omega (arith, item_left here);
      room = omega (arith, room);
      counted = counted;
      full = λ pos lo hi. full pos (omega arith) hi;
      free = λ pos lo hi. elim (ℕ_discrete pos (q.dequeue_pos + size)) [
        | yes e ↦ ground (arith, e, cell_round q.dequeue_pos)
        | no ne ↦ free pos lo (omega arith)
      ];
    }

    pub take_out-own : At size left_one (dequeue_read q.dequeue_pos)
    take_out-own = ground (arith, room, full q.dequeue_pos, item_left here)

    pub take_out-At : (p : Place A) → At size q p → At size left_one p
    take_out-At (dequeue_exchange pos) at = (omega arith, λ e. absurd (omega arith))
    take_out-At (enqueue_exchange u pos) at = at
    take_out-At p at = ground arith
