-- ===== src/Queue/MpscLinked/Taking.antt =====
-- The moves of the consumer keep the chain as it should be.
use hope_threading.Prelude.{ℕ, ◌+◌, ◌<◌, ◌≡◌, ◌≢◌, none, some, arith}
use hope_threading.Threads.{update, update-each}
use hope_threading.Queue.MpscLinked.{
  Queue, Place, Call, move, idle, enqueue_new, enqueue_exchange, enqueue_link, dequeue_load,
  dequeue_read, dequeue_move, dequeue_delete,
}
use hope_threading.Queue.MpscLinked.Invariant.{At, Inv, leftover}

module _ {A : Type 0} (blank : A) (n : ℕ) (c : Call A) where
  -- A move that leaves the nodes alone, of a thread that was and is not about to link.
  pub local-Inv :
      (i : ℕ) (q : Queue A) (pc : ℕ → Place A) (p' : Place A)
      → At q i p'
      → leftover (pc i) ≡ none
      → leftover p' ≡ none
      → ((a b : ℕ) → pc i ≢ enqueue_link a b)
      → ((v : A) → pc i ≢ enqueue_exchange v)
      → Inv n q pc
      → Inv n q (update pc i p')
  local-Inv i q pc p' says none_left none_new apart none_built inv = record {
    order = inv.order;
    counted = inv.counted;
    alive = inv.alive;
    dead = λ k h. ground (arith, inv.dead k h, none_left, none_new);
    unlinked = inv.unlinked;
    private = λ j h. let (v, e) = inv.private j h in (v, ground (arith, e, none_built v));
    linked = λ k lo hi. ground (arith, inv.linked k lo hi, apart k (k + 1));
    values = inv.values;
    places = λ j hj. update-each (At q) pc i j says (λ ne. inv.places j hj);
  }

  -- The next node becomes the tail.
  move-At :
      (q : Queue A) (p : ℕ) (v : A) (j : ℕ) (at : Place A)
      → 0 ≢ j
      → q.next q.tail ≡ some p
      → p ≡ q.tail + 1
      → At q j at
      → At (move blank c 0 q (dequeue_move p v)).0 j at
  unfolding move
  move-At q p v j (idle r) ne e step at = tt
  move-At q p v j (enqueue_new w) ne e step at = at
  move-At q p v j (enqueue_exchange w) ne e step at = at
  move-At q p v j (enqueue_link a b) ne e step at = ground (arith, at, e, step)
  move-At q p v j dequeue_load ne e step at = at
  move-At q p v j (dequeue_read r) ne e step at = absurd (ground (arith, at, ne))
  move-At q p v j (dequeue_move r w) ne e step at = absurd (ground (arith, at, ne))
  move-At q p v j (dequeue_delete old w) ne e step at = absurd (ground (arith, at, ne))

  pub take-Inv :
      (q : Queue A) (pc : ℕ → Place A) (p : ℕ) (v : A)
      → pc 0 ≡ dequeue_move p v
      → At q 0 (dequeue_move p v)
      → Inv n q pc
      → Inv n
          (move blank c 0 q (dequeue_move p v)).0
          (update pc 0 (move blank c 0 q (dequeue_move p v)).1)
  unfolding move
  take-Inv q pc p v at says inv = record {
    order = omega (arith, step, below);
    counted = inv.counted;
    alive = λ k lo hi. inv.alive k (omega (arith, step, lo)) hi;
    dead = λ k h. ground (arith, inv.dead k h, at, step);
    unlinked = inv.unlinked;
    private = λ j h. let (w, e) = inv.private j h in (w, ground (arith, e, at));
    linked = λ k lo hi. ground (arith, inv.linked k, step, lo, hi, at);
    values = λ k lo hi. ground (arith, inv.values k, step, lo, hi);
    places = λ j hj.
        update-each (At (move blank c 0 q (dequeue_move p v)).0) pc 0 j
          (ground (arith, step, says, inv.alive q.tail, below))
          (λ ne. move-At q p v j (pc j) ne says.1 step (inv.places j hj));
  }
    where
      below : q.tail < q.head
      below = ground (arith, inv.unlinked q.tail, inv.order, says)

      step : p ≡ q.tail + 1
      step = ground (arith, inv.linked q.tail, below, says)

  delete-At :
      (q : Queue A) (old : ℕ) (v : A) (j : ℕ) (at : Place A)
      → 0 ≢ j
      → At q j at
      → At (move blank c 0 q (dequeue_delete old v)).0 j at
  unfolding move
  delete-At q old v j (idle r) ne at = tt
  delete-At q old v j (enqueue_new w) ne at = at
  delete-At q old v j (enqueue_exchange w) ne at = at
  delete-At q old v j (enqueue_link a b) ne at = at
  delete-At q old v j dequeue_load ne at = at
  delete-At q old v j (dequeue_read r) ne at = at
  delete-At q old v j (dequeue_move r w) ne at = at
  delete-At q old v j (dequeue_delete old' w) ne at = absurd (ground (arith, at, ne))

  pub delete-Inv :
      (q : Queue A) (pc : ℕ → Place A) (old : ℕ) (v : A)
      → pc 0 ≡ dequeue_delete old v
      → At q 0 (dequeue_delete old v)
      → Inv n q pc
      → Inv n
          (move blank c 0 q (dequeue_delete old v)).0
          (update pc 0 (move blank c 0 q (dequeue_delete old v)).1)
  unfolding move
  delete-Inv q pc old v at says inv = record {
    order = inv.order;
    counted = inv.counted;
    alive = λ k lo hi. ground (arith, inv.alive k lo hi, says);
    dead = λ k h. ground (arith, inv.dead k, h, at);
    unlinked = inv.unlinked;
    private = λ j h. let (w, e) = inv.private j h in (w, ground (arith, e, at));
    linked = λ k lo hi. ground (arith, inv.linked k lo hi, at);
    values = inv.values;
    places = λ j hj.
        update-each (At (move blank c 0 q (dequeue_delete old v)).0) pc 0 j tt
          (λ ne. delete-At q old v j (pc j) ne (inv.places j hj));
  }
