-- ===== src/Queue/MpscOverlap/Published.antt =====
-- A producer's stores of `mpsc_bounded_queue`.
use hope_threading.Prelude.{
  ℕ, sym, ap, ℕ_discrete, ◌+◌, ◌%◌, ◌<◌, ◌≡◌, refl, inl, ◌≢◌, true, some, arith, get_elem?,
}
use hope_threading.Threads.{update}
use hope_threading.Queue.Slots.{slots_apart}
use hope_threading.Queue.MpscOverlap.{
  Queue, Place, idle, enqueue_load, enqueue_test, enqueue_exchange, enqueue_write, enqueue_ready,
  dequeue_test, dequeue_look, dequeue_read, dequeue_clear, dequeue_move, enqueued,
}
use hope_threading.Queue.MpscOverlap.Invariant.{gone, entering, Entering, At, Shape, Moved}
use hope_threading.Queue.MpscOverlap.Keeps.{apart_cells}

module _ {A : Type 0} (size : ℕ) (q : Queue A) (low : ℕ) (shape : Shape size q low) where
  -- The store of the value.
  module _ (v : A) (pos : ℕ) (taken : Entering size q low pos) where
    abbrev pub wrote : Queue A
    wrote = record q { value = update q.value (pos % size) v }

    At-wrote :
        (j : ℕ) (r : Place A)
        → (entering size r ≢ some pos)
        → At size q low j r
        → At size wrote low j r
    At-wrote j (idle r) apart at = at
    At-wrote j (enqueue_load w) apart at = at
    At-wrote j (enqueue_test w pos') apart at = at
    At-wrote j (enqueue_exchange w pos') apart at = at
    At-wrote j (enqueue_write w pos') apart at = at
    At-wrote j (enqueue_ready pos') apart (mine, (lo, hi, clear), e) = (
      mine,
      (lo, hi, clear),
      ground (
        arith,
        e,
        apart_cells size q low shape pos pos' (λ same. apart (ap some (sym same))) taken.0 taken.1
            lo hi,
      ),
    )
    At-wrote j dequeue_test apart at = at
    At-wrote j dequeue_look apart at = at
    At-wrote j dequeue_read apart at = at
    At-wrote j (dequeue_clear w) apart at = at
    At-wrote j (dequeue_move w) apart at = at

    pub write-Moved :
        (i : ℕ)
        → 0 < i
        → get_elem? q.entered pos ≡ some v
        → Moved size i q low (enqueue_write v pos) wrote low (enqueue_ready pos)
    write-Moved i mine e = record {
      shape = record {
        bottom = shape.bottom;
        order = shape.order;
        room = shape.room;
        counted = shape.counted;
        values = λ p lo hi set. ground (arith, shape.values p lo hi set, set, taken.2);
        free = shape.free;
      };
      own = (mine, taken, ground (arith, e));
      others = λ j r ne apart is at. At-wrote j r (apart pos refl) at;
      fresh = λ p a. inl a;
      small = omega arith;
      below = omega arith;
      lowest = (λ none. absurd (omega (arith, none, mine)), λ _. (refl, refl));
    }

    -- The store of the flag.
    abbrev pub published : Queue A
    published = record q { ready = update q.ready (pos % size) true }

    At-published :
        (j : ℕ) (r : Place A)
        → (entering size r ≢ some pos)
        → (j ≡ 0 → low ≡ q.tail + gone size r)
        → At size q low j r
        → At size published low j r
    At-published j (idle r) apart is at = at
    At-published j (enqueue_load w) apart is at = at
    At-published j (enqueue_test w pos') apart is at = at
    At-published j (enqueue_exchange w pos') apart is at = at
    At-published j (enqueue_write w pos') apart is (mine, (lo, hi, clear), e) = (
      mine,
      (
        lo,
        hi,
        ground (
          arith,
          clear,
          apart_cells size q low shape pos pos' (λ same. apart (ap some (sym same))) taken.0 taken.1
              lo hi,
        ),
      ),
      e,
    )
    At-published j (enqueue_ready pos') apart is (mine, (lo, hi, clear), e) = (
      mine,
      (
        lo,
        hi,
        ground (
          arith,
          clear,
          apart_cells size q low shape pos pos' (λ same. apart (ap some (sym same))) taken.0 taken.1
              lo hi,
        ),
      ),
      e,
    )
    At-published j dequeue_test apart is at = at
    At-published j dequeue_look apart is at = at
    At-published j dequeue_read apart is (z, some_in, set) = (z, some_in, ground (arith, set))
    At-published j (dequeue_clear w) apart is (z, some_in, set, e) =
        (z, some_in, ground (arith, set), e)
    At-published j (dequeue_move w) apart is (z, some_in, clear, e) = (
      z,
      some_in,
      ground (
        arith,
        clear,
        slots_apart size pos q.tail (omega (arith, is z, taken.0))
            (omega (arith, taken.1, shape.room)) (omega (arith, is z, taken.0)),
      ),
      e,
    )

    pub ready-Moved :
        (i : ℕ)
        → 0 < i
        → get_elem? q.entered pos ≡ some (q.value (pos % size))
        → Moved size i q low (enqueue_ready pos) published low (idle (enqueued true))
    ready-Moved i mine e = record {
      shape = record {
        bottom = shape.bottom;
        order = shape.order;
        room = shape.room;
        counted = shape.counted;
        values = λ p lo hi set. elim (ℕ_discrete pos p) [
          | yes same ↦ ground (arith, e, same)
          | no ne ↦ ground (
            arith,
            set,
            shape.values p lo hi,
            apart_cells size q low shape pos p ne taken.0 taken.1 lo hi,
          )
        ];
        free = λ p lo hi. ground (
          arith,
          shape.free p lo hi,
          slots_apart size pos p (omega (arith, taken.1, lo)) (omega (arith, taken.1, lo))
              (omega (arith, taken.0, hi, shape.bottom)),
        );
      };
      own = tt;
      others = λ j r ne apart is at. At-published j r (apart pos refl) is at;
      fresh = λ p a. absurd (ground (arith, a));
      small = omega arith;
      below = omega arith;
      lowest = (λ none. absurd (omega (arith, none, mine)), λ _. (refl, refl));
    }
