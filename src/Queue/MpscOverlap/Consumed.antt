-- ===== src/Queue/MpscOverlap/Consumed.antt =====
-- The consumer's stores of `mpsc_bounded_queue`.
use hope_threading.Prelude.{
  ℕ, sym, ℕ_discrete, ◌+◌, ◌%◌, ◌<◌, ◌≡◌, refl, ◌≢◌, true, false, some, arith, get_elem?,
}
use hope_threading.Threads.{update}
use hope_threading.Queue.Slots.{slot_round}
use hope_threading.Queue.MpscOverlap.{
  Queue, Place, idle, enqueue_load, enqueue_test, enqueue_exchange, enqueue_write, enqueue_ready,
  dequeue_test, dequeue_look, dequeue_read, dequeue_clear, dequeue_move, dequeued,
}
use hope_threading.Queue.MpscOverlap.Invariant.{Entering, At, Shape, Moved}
use hope_threading.Queue.MpscOverlap.Keeps.{apart_cells}

module _ {A : Type 0} (size : ℕ) (q : Queue A) (low : ℕ) (shape : Shape size q low) where
  -- The consumer gives its cell back.
  module _ (v : A) (at_tail : low ≡ q.tail) (some_in : q.tail < q.head)
      (set : q.ready (q.tail % size) ≡ true) where
    abbrev pub cleared : Queue A
    cleared = record q { ready = update q.ready (q.tail % size) false }

    Entering-cleared : (pos : ℕ) → Entering size q low pos → Entering size cleared (low + 1) pos
    Entering-cleared pos (lo, hi, clear) = (
      elim (ℕ_discrete pos q.tail) [
        | yes same ↦ absurd (ground (arith, same, set, clear))
        | no ne ↦ omega (arith, ne, lo, at_tail)
      ],
      hi,
      ground (arith, clear),
    )

    At-cleared : (j : ℕ) (r : Place A) → 0 ≢ j → At size q low j r → At size cleared (low + 1) j r
    At-cleared j (idle r) ne at = at
    At-cleared j (enqueue_load w) ne at = at
    At-cleared j (enqueue_test w pos) ne at = at
    At-cleared j (enqueue_exchange w pos) ne at = at
    At-cleared j (enqueue_write w pos) ne (mine, taken, e) = (mine, Entering-cleared pos taken, e)
    At-cleared j (enqueue_ready pos) ne (mine, taken, e) = (mine, Entering-cleared pos taken, e)
    At-cleared j dequeue_test ne at = at
    At-cleared j dequeue_look ne at = at
    At-cleared j dequeue_read ne at = absurd (ne (sym at.0))
    At-cleared j (dequeue_clear w) ne at = absurd (ne (sym at.0))
    At-cleared j (dequeue_move w) ne at = absurd (ne (sym at.0))

    pub clear-Moved :
        get_elem? q.entered q.tail ≡ some v
        → Moved size 0 q low (dequeue_clear v) cleared (low + 1) (dequeue_move v)
    clear-Moved e = record {
      shape = record {
        bottom = (omega (arith, at_tail), omega (arith, at_tail));
        order = omega (arith, at_tail, some_in);
        room = shape.room;
        counted = shape.counted;
        values = λ p lo hi is. ground (
          arith,
          is,
          shape.values p (omega (arith, lo)) hi,
          apart_cells size q low shape p q.tail (omega (arith, lo, at_tail)) (omega (arith, lo)) hi
              (omega (arith, at_tail)) some_in,
        );
        free = λ p lo hi. ground (arith, shape.free p lo hi);
      };
      own = (refl, some_in, ground arith, e);
      others = λ j r ne apart is at. At-cleared j r ne at;
      fresh = λ p a. absurd (ground (arith, a));
      small = omega arith;
      below = omega arith;
      lowest = (λ _. omega (arith, at_tail), λ pos. absurd (omega (arith, pos)));
    }

  -- The consumer moves the tail.
  module _ (v : A) (past : low ≡ q.tail + 1) (some_in : q.tail < q.head)
      (unset : q.ready (q.tail % size) ≡ false) where
    abbrev pub stepped : Queue A
    stepped = record q { tail = q.tail + 1 }

    At-stepped : (j : ℕ) (r : Place A) → 0 ≢ j → At size q low j r → At size stepped low j r
    At-stepped j (idle r) ne at = at
    At-stepped j (enqueue_load w) ne at = at
    At-stepped j (enqueue_test w pos) ne at = at
    At-stepped j (enqueue_exchange w pos) ne at = at
    At-stepped j (enqueue_write w pos) ne at = at
    At-stepped j (enqueue_ready pos) ne at = at
    At-stepped j dequeue_test ne at = at
    At-stepped j dequeue_look ne at = absurd (ne (sym at.0))
    At-stepped j dequeue_read ne at = absurd (ne (sym at.0))
    At-stepped j (dequeue_clear w) ne at = absurd (ne (sym at.0))
    At-stepped j (dequeue_move w) ne at = absurd (ne (sym at.0))

    pub step-Moved : Moved size 0 q low (dequeue_move v) stepped low (idle (dequeued (some v)))
    step-Moved = record {
      shape = record {
        bottom = (omega (arith, past), omega (arith, past));
        order = shape.order;
        room = omega (arith, shape.room);
        counted = shape.counted;
        values = shape.values;
        free = λ p lo hi. elim (ℕ_discrete p (q.tail + size)) [
          | yes same ↦ ground (arith, same, slot_round size q.tail, unset)
          | no ne ↦ shape.free p lo (omega (arith, ne, hi))
        ];
      };
      own = tt;
      others = λ j r ne apart is at. At-stepped j r ne at;
      fresh = λ p a. absurd (ground (arith, a));
      small = omega arith;
      below = omega arith;
      lowest = (λ _. omega (arith, past), λ pos. absurd (omega (arith, pos)));
    }
