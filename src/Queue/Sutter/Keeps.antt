-- ===== src/Queue/Sutter/Keeps.antt =====
-- Each move keeps the chain, and the place of the other thread right.
use hope_threading.Prelude.{
  ℕ, suc, ◌+◌, ◌≤◌, ◌<◌, ◌≡◌, refl, inl, inr, false, some, [], ◌∷◌, arith, ◌==◌, Bool-cases,
  get_elem?, length-append, get_elem?-past, get_elem?-append_left, get_elem?-append_length,
}
use hope_threading.Queue.Sutter.{
  null_read, update, enqueue_delete, enter, delete_first, enqueue_load, Queue, Place, Call, move,
  link, publish, idle, enqueue_link, enqueue_publish, dequeue_divider, dequeue_last, dequeue_read,
  dequeue_store,
}
use hope_threading.Queue.Sutter.Invariant.{two_sided_move, Consumes, Inv}

module _ {A : Type 0} (blank : A) where
  -- What the producer does leaves what the consumer has seen.
  Consumes-grows :
      (q q' : Queue A) (p : Place A)
      → q'.divider ≡ q.divider
      → q.last ≤ q'.last
      → ((k : ℕ) (v : A) → get_elem? q.entered k ≡ some v → get_elem? q'.entered k ≡ some v)
      → Consumes q p
      → Consumes q' p
  Consumes-grows q q' (idle r) same more kept at = tt
  Consumes-grows q q' dequeue_divider same more kept at = tt
  Consumes-grows q q' (dequeue_last d) same more kept at = ground (arith, same, at)
  Consumes-grows q q' (dequeue_read d) same more kept at = ground (arith, same, more, at)
  Consumes-grows q q' (dequeue_store p v) same more kept at =
      ground (arith, same, more, at, kept q.divider v)
  Consumes-grows q q' (enqueue_link _) same more kept at = elim at [ ]
  Consumes-grows q q' (enqueue_publish _) same more kept at = elim at [ ]
  Consumes-grows q q' enqueue_load same more kept at = elim at [ ]
  Consumes-grows q q' (enqueue_delete _) same more kept at = elim at [ ]
  Consumes-grows q q' null_read same more kept at = elim at [ ]

  link-Inv :
      (i : ℕ) (c : Call A) (q : Queue A) (v : A) (p : Place A)
      → Inv q (enqueue_link v) p
      → Inv (move c i q (enqueue_link v)).0 (move c i q (enqueue_link v)).1 p
  unfolding move link
  link-Inv i c q v p inv = record {
    chain = record {
      before = inv.chain.before;
      behind = inv.chain.behind;
      counted = omega (arith, length-append q.entered (v ∷ []), inv.chain.counted);
      made = omega (arith, inv.chain.made);
      linked = λ k lo hi. ground (arith, inv.chain.made, inv.chain.linked k lo);
      ends = ground (arith, inv.chain.made);
      alive = λ k lo hi. ground (arith, inv.chain.made, inv.chain.alive k lo);
      dead = λ k h.
          ground (arith, inv.chain.made, inv.chain.dead k, h, inv.chain.before, inv.chain.behind);
      values = λ k lo hi. ground (
        arith,
        inv.chain.made,
        inv.chain.values k lo,
        inv.chain.counted,
        get_elem?-append_left q.entered (v ∷ []) k,
        get_elem?-append_length q.entered v,
      );
    };
    produces = refl;
    consumes =
        Consumes-grows q (move c i q (enqueue_link v)).0 p refl (omega arith)
          (λ k w e.
            ground
              (arith, e, get_elem?-append_left q.entered (v ∷ []) k, get_elem?-past q.entered k))
          inv.consumes;
  }

  publish-Inv :
      (i : ℕ) (c : Call A) (q : Queue A) (l : ℕ) (p : Place A)
      → Inv q (enqueue_publish l) p
      → Inv (move c i q (enqueue_publish l)).0 (move c i q (enqueue_publish l)).1 p
  unfolding move publish
  publish-Inv i c q l p inv = rw linked (record {
    chain = record {
      before = inv.chain.before;
      behind = omega (arith, inv.chain.behind);
      counted = omega (arith, inv.chain.counted);
      made = omega (arith, inv.chain.made);
      linked = λ k lo hi. inv.chain.linked k lo (omega (arith, hi));
      ends = ground (arith, inv.chain.ends);
      alive = λ k lo hi. inv.chain.alive k lo (omega (arith, hi));
      dead = λ k h. ground (arith, inv.chain.dead k h);
      values = λ k lo hi. inv.chain.values k lo (omega (arith, hi));
    };
    produces = tt;
    consumes =
        Consumes-grows q (record q { last = q.last + 1 }) p refl (omega arith) (λ k w e. e)
          inv.consumes;
  })
    where
      linked : q.next l ≡ some (q.last + 1)
      linked = ground (arith, inv.produces, inv.chain.linked l, inv.chain.before, inv.chain.behind)

  delete-Inv :
      (i : ℕ) (c : Call A) (q : Queue A) (d : ℕ) (p : Place A)
      → Inv q (enqueue_delete d) p
      → Inv (move c i q (enqueue_delete d)).0 (move c i q (enqueue_delete d)).1 p
  unfolding move delete_first
  delete-Inv i c q d p inv = elim (Bool-cases (q.first == d)) [
    | inl all ↦ rw all (record { chain = inv.chain; produces = tt; consumes = inv.consumes })
    | inr more ↦
        (let below : q.first < d = ground (arith, more, inv.produces) in
          let linked : q.next q.first ≡ some (q.first + 1) =
            ground (arith, below, inv.produces, inv.chain.linked q.first, inv.chain.behind) in
          rw (more, linked)
            (record {
              chain = record {
                before = omega (arith, below, inv.produces);
                behind = inv.chain.behind;
                counted = inv.chain.counted;
                made = inv.chain.made;
                linked = λ k lo hi. inv.chain.linked k (omega (arith, lo)) hi;
                ends = inv.chain.ends;
                alive = λ k lo hi. ground (arith, inv.chain.alive k, lo, hi);
                dead = λ k h. ground (arith, inv.chain.dead k, h);
                values = inv.chain.values;
              };
              produces = tt;
              consumes =
                  Consumes-grows q
                    (record q { first = q.first + 1; live = update q.live q.first false }) p refl
                    (omega arith) (λ k w e. e) inv.consumes;
            }))
  ]

  -- The producer's moves, each from where it stands.
  pub produce-Inv :
      (i : ℕ) (c : Call A) (q : Queue A) (p p' : Place A)
      → Inv q p p'
      → Inv (two_sided_move blank c (suc i) q p).0 (two_sided_move blank c (suc i) q p).1 p'
  unfolding move enter
  produce-Inv i (Call.enqueue v) q (idle r) p' inv = record {
    chain = inv.chain;
    produces = tt;
    consumes = inv.consumes;
  }
  produce-Inv i Call.dequeue q (idle r) p' inv = record {
    chain = inv.chain;
    produces = tt;
    consumes = inv.consumes;
  }
  produce-Inv i c q (enqueue_link v) p' inv = link-Inv (suc i) c q v p' inv
  produce-Inv i c q (enqueue_publish l) p' inv = publish-Inv (suc i) c q l p' inv
  produce-Inv i c q enqueue_load p' inv = record {
    chain = inv.chain;
    produces = (inv.chain.before, omega arith);
    consumes = inv.consumes;
  }
  produce-Inv i c q (enqueue_delete d) p' inv = delete-Inv (suc i) c q d p' inv
  produce-Inv i c q dequeue_divider p' inv = elim inv.produces [ ]
  produce-Inv i c q (dequeue_last d) p' inv = elim inv.produces [ ]
  produce-Inv i c q (dequeue_read d) p' inv = elim inv.produces [ ]
  produce-Inv i c q (dequeue_store d v) p' inv = elim inv.produces [ ]
  produce-Inv i c q null_read p' inv = elim inv.produces [ ]
