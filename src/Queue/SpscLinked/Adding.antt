-- ===== src/Queue/SpscLinked/Adding.antt =====
-- The producer's moves keep the chain, and what the consumer has seen.
use hope_threading.Prelude.{
  ℕ, ◌+◌, ◌≡◌, refl, inl, inr, some, [], ◌∷◌, arith, ◌==◌, if◌then◌else◌, Bool-cases,
  get_elem?-past, get_elem?-append_left,
}
use hope_threading.Queue.SpscLinked.{
  alloc_test, alloc_load, alloc_again, alloc_cached, alloc_new, enqueue_link, dequeue_load,
  dequeue_read, dequeue_store, null_read, idle, move, enter, Call, Place, Queue, take_cached,
  make_new, link,
}
use hope_threading.Queue.SpscLinked.Invariant.{two_sided_move, Produces, Consumes, Inv, Chain}
use hope_threading.Queue.SpscLinked.Chains.{
  load-Chain, cached_left, cached-next, cached-Chain, cached-Private, new-Chain, new-Private,
  link-Chain,
}

module _ {A : Type 0} where
  -- What the consumer has seen stands while items are added.
  Consumes-link :
      (q : Queue A) (n : ℕ) (v : A) (p : Place A) → Consumes q p → Consumes (link n v q).0 p
  unfolding link
  Consumes-link q n v (idle r) at = tt
  Consumes-link q n v dequeue_load at = tt
  Consumes-link q n v dequeue_read at = omega (arith, at)
  Consumes-link q n v (dequeue_store w) at = ground (
    arith,
    at,
    get_elem?-append_left q.entered (v ∷ []) q.tail_pos,
    get_elem?-past q.entered q.tail_pos,
  )
  Consumes-link q n v (alloc_test _) at = elim at [ ]
  Consumes-link q n v (alloc_load _) at = elim at [ ]
  Consumes-link q n v (alloc_again _) at = elim at [ ]
  Consumes-link q n v (alloc_cached _) at = elim at [ ]
  Consumes-link q n v (alloc_new _) at = elim at [ ]
  Consumes-link q n v (enqueue_link _ _) at = elim at [ ]
  Consumes-link q n v null_read at = elim at [ ]

  -- The same for a change of the producer's own fields and of nodes that are not in the chain.
  Consumes-same :
      (q q' : Queue A) (p : Place A)
      → q'.tail_pos ≡ q.tail_pos
      → q'.head_pos ≡ q.head_pos
      → q'.entered ≡ q.entered
      → Consumes q p
      → Consumes q' p
  Consumes-same q q' (idle r) tails heads same at = tt
  Consumes-same q q' dequeue_load tails heads same at = tt
  Consumes-same q q' dequeue_read tails heads same at = omega (arith, at, tails, heads)
  Consumes-same q q' (dequeue_store w) tails heads same at = ground (arith, at, tails, heads, same)
  Consumes-same q q' (alloc_test _) tails heads same at = elim at [ ]
  Consumes-same q q' (alloc_load _) tails heads same at = elim at [ ]
  Consumes-same q q' (alloc_again _) tails heads same at = elim at [ ]
  Consumes-same q q' (alloc_cached _) tails heads same at = elim at [ ]
  Consumes-same q q' (alloc_new _) tails heads same at = elim at [ ]
  Consumes-same q q' (enqueue_link _ _) tails heads same at = elim at [ ]
  Consumes-same q q' null_read tails heads same at = elim at [ ]

  test-Inv :
      (q : Queue A) (v : A) (p p' : Place A)
      → Produces q p
      → Chain q
      → Consumes q p'
      → Inv q (if q.first == q.tail_copy then p else alloc_cached v) p'
  test-Inv q v p p' says ch seen = elim (Bool-cases (q.first == q.tail_copy)) [
    | inl used ↦ rw used (record { chain = ch; produces = says; consumes = seen })
    | inr left ↦ rw left (record { chain = ch; produces = cached_left q ch left; consumes = seen })
  ]

  pub produce-Inv :
      (blank : A) (c : Call A) (q : Queue A) (p p' : Place A)
      → Inv q p p'
      → Inv (two_sided_move blank c 1 q p).0 (two_sided_move blank c 1 q p).1 p'
  unfolding move enter take_cached make_new link
  produce-Inv blank (Call.enqueue v) q (idle r) p' inv = record {
    chain = inv.chain;
    produces = tt;
    consumes = inv.consumes;
  }
  produce-Inv blank Call.try_dequeue q (idle r) p' inv = record {
    chain = inv.chain;
    produces = tt;
    consumes = inv.consumes;
  }
  produce-Inv blank c q (alloc_test v) p' inv =
      test-Inv q v (alloc_load v) p' tt inv.chain inv.consumes
  produce-Inv blank c q (alloc_load v) p' inv = record {
    chain = load-Chain q inv.chain;
    produces = tt;
    consumes =
        Consumes-same q (record q { tail_copy = q.tail; copy_pos = q.tail_pos }) p' refl refl refl
          inv.consumes;
  }
  produce-Inv blank c q (alloc_again v) p' inv =
      test-Inv q v (alloc_new v) p' tt inv.chain inv.consumes
  produce-Inv blank c q (alloc_cached v) p' inv =
      rw (cached-next q inv.chain inv.produces) (record {
        chain = cached-Chain q v inv.chain inv.produces;
        produces = cached-Private q v inv.chain inv.produces;
        consumes =
            Consumes-same q (take_cached v q (some (q.at (q.first_pos + 1)))).0 p' refl refl refl
              inv.consumes;
      })
  produce-Inv blank c q (alloc_new v) p' inv = record {
    chain = new-Chain q v inv.chain;
    produces = new-Private q v inv.chain;
    consumes = Consumes-same q (make_new v q).0 p' refl refl refl inv.consumes;
  }
  produce-Inv blank c q (enqueue_link n v) p' inv = record {
    chain = link-Chain q n v inv.chain inv.produces;
    produces = tt;
    consumes = Consumes-link q n v p' inv.consumes;
  }
  produce-Inv blank c q dequeue_load p' inv = elim inv.produces [ ]
  produce-Inv blank c q dequeue_read p' inv = elim inv.produces [ ]
  produce-Inv blank c q (dequeue_store v) p' inv = elim inv.produces [ ]
  produce-Inv blank c q null_read p' inv = elim inv.produces [ ]
