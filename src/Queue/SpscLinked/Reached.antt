-- ===== src/Queue/SpscLinked/Reached.antt =====
-- The chain in each reachable state.
use hope_threading.Prelude.{
  ℕ, zero, suc, ◌+◌, ◌<◌, ◌≡◌, refl, none, some, arith, dec_lt, ℕ_discrete,
}
use hope_threading.Threads.{update, System, Reach, Reach-keeps}
use hope_threading.Queue.SpscLinked.{
  Queue, Place, Call, move, enter, tested, read_value, store_tail, new, idle, alloc_test,
  alloc_load, alloc_again, alloc_cached, alloc_new, enqueue_link, dequeue_load, dequeue_read,
  dequeue_store, null_read, nothing,
}
use hope_threading.Queue.SpscLinked.Invariant.{two_sided_move, Produces, Chain, Inv}
use hope_threading.Queue.SpscLinked.Adding.{produce-Inv}

module _ {A : Type 0} (blank : A) where
  -- The queue behind one more item that is taken.
  abbrev moved : Queue A → Queue A
  moved q = record q { tail = q.at (q.tail_pos + 1); tail_pos = q.tail_pos + 1 }

  moved-Chain : (q : Queue A) → Chain q → q.tail_pos < q.head_pos → Chain (moved q)
  moved-Chain q ch left = record {
    cached = ch.cached;
    copied = omega (arith, ch.copied);
    order = omega (arith, left);
    first_at = ch.first_at;
    copy_at = ch.copy_at;
    tail_at = refl;
    head_at = ch.head_at;
    counted = ch.counted;
    allocated = ch.allocated;
    distinct = ch.distinct;
    linked = ch.linked;
    ends = ch.ends;
    values = λ k lo hi. ch.values k (omega (arith, lo)) hi;
  }

  Produces-moved : (q : Queue A) (p : Place A) → Produces q p → Produces (moved q) p
  Produces-moved q (idle r) says = tt
  Produces-moved q (alloc_test v) says = tt
  Produces-moved q (alloc_load v) says = tt
  Produces-moved q (alloc_again v) says = tt
  Produces-moved q (alloc_cached v) says = says
  Produces-moved q (alloc_new v) says = tt
  Produces-moved q (enqueue_link n v) says = record {
    allocated = says.allocated;
    apart = says.apart;
    holds = says.holds;
    ends = says.ends;
  }
  Produces-moved q dequeue_load says = elim says [ ]
  Produces-moved q dequeue_read says = elim says [ ]
  Produces-moved q (dequeue_store _) says = elim says [ ]
  Produces-moved q null_read says = elim says [ ]

  pub tail-next :
      (q : Queue A)
      → Chain q
      → q.tail_pos < q.head_pos
      → q.next q.tail ≡ some (q.at (q.tail_pos + 1))
  tail-next q ch left =
      rw ch.tail_at (ch.linked q.tail_pos (omega (arith, ch.cached, ch.copied)) left)

  tested-Inv : (q : Queue A) (p : Place A) → Inv q p dequeue_load → Inv q p (tested (q.next q.tail))
  unfolding tested
  tested-Inv q p inv = elim (dec_lt q.tail_pos q.head_pos) [
    | yes left ↦
        rw (tail-next q inv.chain left)
          (record { chain = inv.chain; produces = inv.produces; consumes = left })
    | no none_left ↦
        (let ended : q.next q.tail ≡ none =
            ground (arith, inv.chain.tail_at, inv.chain.ends, inv.chain.order, none_left) in
          rw ended (record { chain = inv.chain; produces = inv.produces; consumes = tt }))
  ]

  consume-Inv :
      (c : Call A) (q : Queue A) (p p' : Place A)
      → Inv q p p'
      → Inv (two_sided_move blank c 0 q p').0 p (two_sided_move blank c 0 q p').1
  unfolding move enter read_value store_tail
  consume-Inv c q p (idle r) inv = record {
    chain = inv.chain;
    produces = inv.produces;
    consumes = tt;
  }
  consume-Inv c q p dequeue_load inv = tested-Inv q p inv
  consume-Inv c q p dequeue_read inv = rw (tail-next q inv.chain inv.consumes) (record {
    chain = inv.chain;
    produces = inv.produces;
    consumes = (inv.consumes, inv.chain.values q.tail_pos (omega arith) inv.consumes);
  })
  consume-Inv c q p (dequeue_store v) inv = rw (tail-next q inv.chain inv.consumes.0) (record {
    chain = moved-Chain q inv.chain inv.consumes.0;
    produces = Produces-moved q p inv.produces;
    consumes = tt;
  })
  consume-Inv c q p (alloc_test _) inv = elim inv.consumes [ ]
  consume-Inv c q p (alloc_load _) inv = elim inv.consumes [ ]
  consume-Inv c q p (alloc_again _) inv = elim inv.consumes [ ]
  consume-Inv c q p (alloc_cached _) inv = elim inv.consumes [ ]
  consume-Inv c q p (alloc_new _) inv = elim inv.consumes [ ]
  consume-Inv c q p (enqueue_link _ _) inv = elim inv.consumes [ ]
  consume-Inv c q p null_read inv = elim inv.consumes [ ]

  -- The queue as it is constructed, and both threads in no call.
  abbrev pub initial : System (Queue A) (Place A)
  initial = record { mem = new blank; pc = λ _. idle nothing }

  pub step-Inv :
      (i : ℕ) (c : Call A) (q : Queue A) (pc : ℕ → Place A)
      → i < 2
      → Inv q (pc 1) (pc 0)
      → Inv
          (two_sided_move blank c i q (pc i)).0
          (update pc i (two_sided_move blank c i q (pc i)).1 1)
          (update pc i (two_sided_move blank c i q (pc i)).1 0)
  unfolding ℕ_discrete
  step-Inv zero c q pc lt inv = consume-Inv c q (pc 1) (pc 0) inv
  step-Inv (suc zero) c q pc lt inv = produce-Inv blank c q (pc 1) (pc 0) inv
  step-Inv (suc (suc i)) c q pc lt inv = absurd (omega (arith, lt))

  pub initial-Inv : Inv initial.mem (initial.pc 1) (initial.pc 0)
  unfolding new
  initial-Inv = record {
    chain = record {
      cached = omega arith;
      copied = omega arith;
      order = omega arith;
      first_at = refl;
      copy_at = refl;
      tail_at = refl;
      head_at = refl;
      counted = refl;
      allocated = λ k lo hi. omega arith;
      distinct = λ j k lo lt hi. absurd (omega (arith, lt, hi));
      linked = λ k lo hi. absurd (omega (arith, hi));
      ends = refl;
      values = λ k lo hi. absurd (omega (arith, hi));
    };
    produces = tt;
    consumes = tt;
  }

  pub Reach-Inv :
      {s : System (Queue A) (Place A)}
      → Reach (two_sided_move blank) 2 initial s
      → Inv s.mem (s.pc 1) (s.pc 0)
  Reach-Inv r =
      Reach-keeps (two_sided_move blank) 2 (λ q pc. Inv q (pc 1) (pc 0))
        (λ i c q pc lt inv. step-Inv i c q pc lt inv) {s = initial} initial-Inv r
