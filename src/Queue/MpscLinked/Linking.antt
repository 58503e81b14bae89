-- ===== src/Queue/MpscLinked/Linking.antt =====
-- The two moves of a producer keep the chain as it should be.
use hope_threading.Prelude.{
  ℕ, ℕ_discrete, ◌≤◌, ◌<◌, ◌≡◌, ◌≢◌, none, [], ◌∷◌, arith, length, length-append, get_elem?-past,
  get_elem?-append_left, get_elem?-append_length,
}
use hope_threading.Threads.{update-each, update}
use hope_threading.Queue.MpscLinked.{
  Queue, Place, Call, move, idle, enqueue_new, enqueue_exchange, enqueue_link, dequeue_load,
  dequeue_read, dequeue_move, dequeue_delete,
}
use hope_threading.Queue.MpscLinked.Invariant.{At, Inv}

module _ {A : Type 0} (blank : A) (n i : ℕ) where
  -- What a place says of the nodes is kept by the exchange of another thread.
  exchange-At :
      (c : Call A) (q : Queue A) (v : A) (j : ℕ) (p : Place A)
      → q.tail ≤ q.head
      → length q.entered ≡ q.head
      → i ≢ j
      → At q j p
      → At (move blank c i q (enqueue_exchange v)).0 j p
  unfolding move
  exchange-At c q v j (idle r) order counted ne at = tt
  exchange-At c q v j (enqueue_new w) order counted ne at = at
  exchange-At c q v j (enqueue_exchange w) order counted ne at = ground (arith, at, ne)
  exchange-At c q v j (enqueue_link a b) order counted ne at = ground (arith, at)
  exchange-At c q v j dequeue_load order counted ne at = at
  exchange-At c q v j (dequeue_read p) order counted ne at = ground (arith, at)
  exchange-At c q v j (dequeue_move p w) order counted ne at =
      ground (
        arith,
        at,
        get_elem?-append_left q.entered (v ∷ []) q.tail,
        get_elem?-past q.entered q.tail,
      )
  exchange-At c q v j (dequeue_delete old w) order counted ne at =
      ground (arith, at, get_elem?-append_left q.entered (v ∷ []) old)

  pub exchange-Inv :
      (c : Call A) (q : Queue A) (pc : ℕ → Place A) (v : A)
      → i < n
      → pc i ≡ enqueue_exchange v
      → At q i (enqueue_exchange v)
      → Inv n q pc
      → Inv n
          (move blank c i q (enqueue_exchange v)).0
          (update pc i (move blank c i q (enqueue_exchange v)).1)
  unfolding move
  exchange-Inv c q pc v lt at says inv = record {
    order = omega (arith, inv.order);
    counted = omega (arith, length-append q.entered (v ∷ []), inv.counted);
    alive = λ k lo hi. ground (arith, inv.alive k lo, says);
    dead = λ k h. ground (arith, inv.dead k, h, inv.order, at, says);
    unlinked = λ k hi. ground (arith, inv.unlinked k);
    private = λ j h. ground (arith, inv.private j, h);
    linked = λ k lo hi. ground (arith, inv.linked k lo, inv.unlinked k, at);
    values = λ k lo hi. ground (
      arith,
      inv.values k lo,
      inv.counted,
      get_elem?-append_left q.entered (v ∷ []) k,
      get_elem?-append_length q.entered v,
    );
    places = λ j hj.
        update-each (At (move blank c i q (enqueue_exchange v)).0) pc i j
          (ground (arith, says, inv.order, inv.unlinked q.head))
          (λ ne. exchange-At c q v j (pc j) inv.order inv.counted ne (inv.places j hj));
  }

  -- The allocation of a node.
  build-At :
      (c : Call A) (q : Queue A) (v : A) (j : ℕ) (p : Place A)
      → i ≢ j
      → At q j p
      → At (move blank c i q (enqueue_new v)).0 j p
  unfolding move
  build-At c q v j (idle r) ne at = tt
  build-At c q v j (enqueue_new w) ne at = at
  build-At c q v j (enqueue_exchange w) ne at = ground (arith, at, ne)
  build-At c q v j (enqueue_link a b) ne at = at
  build-At c q v j dequeue_load ne at = at
  build-At c q v j (dequeue_read p) ne at = at
  build-At c q v j (dequeue_move p w) ne at = at
  build-At c q v j (dequeue_delete old w) ne at = at

  pub build-Inv :
      (c : Call A) (q : Queue A) (pc : ℕ → Place A) (v : A)
      → pc i ≡ enqueue_new v
      → 0 < i
      → Inv n q pc
      → Inv n
          (move blank c i q (enqueue_new v)).0
          (update pc i (move blank c i q (enqueue_new v)).1)
  unfolding move
  build-Inv c q pc v at says inv = record {
    order = inv.order;
    counted = inv.counted;
    alive = inv.alive;
    dead = λ k h. ground (arith, inv.dead k h, at, says);
    unlinked = inv.unlinked;
    linked = λ k lo hi. ground (arith, inv.linked k lo hi, at);
    private = λ j h. elim (ℕ_discrete i j) [
      | yes same ↦ (v, ground (arith, same))
      | no ne ↦ ground (arith, inv.private j, h, ne)
    ];
    values = inv.values;
    places = λ j hj.
        update-each (At (move blank c i q (enqueue_new v)).0) pc i j (ground (arith, says))
          (λ ne. build-At c q v j (pc j) ne (inv.places j hj));
  }

  link-At :
      (c : Call A) (q : Queue A) (a b j : ℕ) (p : Place A)
      → i ≢ j
      → q.linker a ≡ i
      → q.next a ≡ none
      → At q j p
      → At (move blank c i q (enqueue_link a b)).0 j p
  unfolding move
  link-At c q a b j (idle r) ne mine missing at = tt
  link-At c q a b j (enqueue_new w) ne mine missing at = at
  link-At c q a b j (enqueue_exchange w) ne mine missing at = at
  link-At c q a b j (enqueue_link a' b') ne mine missing at = ground (arith, at)
  link-At c q a b j dequeue_load ne mine missing at = at
  link-At c q a b j (dequeue_read p) ne mine missing at = ground (arith, at)
  link-At c q a b j (dequeue_move p w) ne mine missing at = ground (arith, at)
  link-At c q a b j (dequeue_delete old w) ne mine missing at = at

  pub link-Inv :
      (c : Call A) (q : Queue A) (pc : ℕ → Place A) (a b : ℕ)
      → i < n
      → pc i ≡ enqueue_link a b
      → At q i (enqueue_link a b)
      → Inv n q pc
      → Inv n
          (move blank c i q (enqueue_link a b)).0
          (update pc i (move blank c i q (enqueue_link a b)).1)
  unfolding move
  link-Inv c q pc a b lt at says inv = record {
    order = inv.order;
    counted = inv.counted;
    alive = inv.alive;
    dead = λ k h. ground (arith, inv.dead k h, at);
    unlinked = λ k hi. ground (arith, inv.unlinked k, says);
    private = λ j h. ground (arith, inv.private j h, at);
    linked = λ k lo hi. ground (arith, inv.linked k lo hi, at, says);
    values = inv.values;
    places = λ j hj.
        update-each (At (move blank c i q (enqueue_link a b)).0) pc i j tt
          (λ ne. link-At c q a b j (pc j) ne says.5 says.4 (inv.places j hj));
  }
