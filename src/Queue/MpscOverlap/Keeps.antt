-- ===== src/Queue/MpscOverlap/Keeps.antt =====
-- A move of `mpsc_bounded_queue` that leaves the queue, and the exchange that takes a position.
use hope_threading.Prelude.{
  ℕ, ◌+◌, ◌%◌, ◌≤◌, ◌<◌, ◌≡◌, refl, inr, ◌≢◌, Option, none, some, [], ◌∷◌, ◌++◌, arith, get_elem?,
  length-append, get_elem?-append_left, get_elem?-append_length,
}
use hope_threading.Queue.Slots.{slots_apart}
use hope_threading.Queue.MpscOverlap.{
  Queue, Place, idle, enqueue_load, enqueue_test, enqueue_exchange, enqueue_write, enqueue_ready,
  dequeue_test, dequeue_look, dequeue_read, dequeue_clear, dequeue_move,
}
use hope_threading.Queue.MpscOverlap.Invariant.{gone, entering, At, Shape, Moved}

module _ {A : Type 0} (size : ℕ) (q : Queue A) (low : ℕ) (shape : Shape size q low) where
  -- A move that leaves the queue.
  pub quiet :
      (i : ℕ) (p p' : Place A)
      → At size q low i p'
      → (entering size p' ≡ none)
      → (i ≡ 0 → low ≡ q.tail + gone size p')
      → Moved size i q low p q low p'
  quiet i p p' at none_taken lowest = record {
    shape = shape;
    own = at;
    others = λ j r ne apart is a. a;
    fresh = λ pos e. absurd (ground (arith, none_taken, e));
    small = omega arith;
    below = omega arith;
    lowest = (lowest, λ pos. (refl, refl));
  }

  -- What was said of a taken position stays when one more is taken.
  grown :
      (v : A) (pos : ℕ) (o : Option A)
      → pos < q.head
      → get_elem? q.entered pos ≡ o
      → get_elem? (q.entered ++ v ∷ []) pos ≡ o
  grown v pos o lt e =
      ground (arith, shape.counted, e, get_elem?-append_left q.entered (v ∷ []) pos)

  abbrev pub more : A → Queue A
  more v = record q { head = q.head + 1; entered = q.entered ++ v ∷ [] }

  At-more : (v : A) (j : ℕ) (r : Place A) → At size q low j r → At size (more v) low j r
  At-more v j (idle r) at = at
  At-more v j (enqueue_load w) at = at
  At-more v j (enqueue_test w pos) at = omega (arith, at)
  At-more v j (enqueue_exchange w pos) at = omega (arith, at)
  At-more v j (enqueue_write w pos) (mine, (lo, hi, clear), e) =
      (mine, (lo, omega (arith, hi), clear), grown v pos (some w) hi e)
  At-more v j (enqueue_ready pos) (mine, (lo, hi, clear), e) =
      (mine, (lo, omega (arith, hi), clear), grown v pos (some (q.value (pos % size))) hi e)
  At-more v j dequeue_test at = at
  At-more v j dequeue_look (z, some_in) = (z, omega (arith, some_in))
  At-more v j dequeue_read (z, some_in, set) = (z, omega (arith, some_in), set)
  At-more v j (dequeue_clear w) (z, some_in, set, e) =
      (z, omega (arith, some_in), set, grown v q.tail (some w) some_in e)
  At-more v j (dequeue_move w) (z, some_in, clear, e) =
      (z, omega (arith, some_in), clear, grown v q.tail (some w) some_in e)

  pub exchange-Moved :
      (i : ℕ) (v : A)
      → 0 < i
      → q.head < q.tail + size
      → Moved size i q low (enqueue_exchange v q.head) (more v) low (enqueue_write v q.head)
  exchange-Moved i v pos room = record {
    shape = record {
      bottom = shape.bottom;
      order = omega (arith, shape.order);
      room = omega (arith, room);
      counted = omega (arith, length-append q.entered (v ∷ []), shape.counted);
      values = λ p lo hi set. ground (
        arith,
        shape.values p lo,
        shape.free q.head,
        shape.counted,
        set,
        hi,
        room,
        get_elem?-append_left q.entered (v ∷ []) p,
      );
      free = λ p lo hi. shape.free p (omega (arith, lo)) hi;
    };
    own = (
      pos,
      (shape.order, omega arith, shape.free q.head (omega arith) room),
      ground (arith, shape.counted, get_elem?-append_length q.entered v),
    );
    others = λ j r ne apart is at. At-more v j r at;
    fresh = λ p e. inr (ground (arith, e));
    small = omega arith;
    below = omega arith;
    lowest = (λ zero. absurd (omega (arith, zero, pos)), λ _. (refl, refl));
  }

  -- A taken position and another one have different cells.
  pub apart_cells :
      (a b : ℕ) → a ≢ b → low ≤ a → a < q.head → low ≤ b → b < q.head → a % size ≢ b % size
  apart_cells a b ne la ha lb hb =
      slots_apart size a b ne (omega (arith, ha, lb, shape.room, shape.bottom))
        (omega (arith, hb, la, shape.room, shape.bottom))
