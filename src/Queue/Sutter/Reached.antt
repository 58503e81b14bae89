-- ===== src/Queue/Sutter/Reached.antt =====
-- The chain in each reachable state.
use hope_threading.Prelude.{
  ℕ, zero, suc, ◌+◌, ◌≤◌, ◌<◌, ◌≡◌, refl, inl, inr, none, some, arith, ℕ_discrete, ◌==◌,
  if◌then◌else◌, Bool-cases,
}
use hope_threading.Threads.{update, System, Reach, Reach-keeps}
use hope_threading.Queue.Sutter.{
  Queue, Place, Call, move, enter, read_next, new, idle, enqueue_link, enqueue_publish,
  enqueue_load, enqueue_delete, dequeue_divider, dequeue_last, dequeue_read, dequeue_store,
  null_read, nothing, dequeued,
}
use hope_threading.Queue.Sutter.Invariant.{two_sided_move, Produces, Inv}
use hope_threading.Queue.Sutter.Keeps.{produce-Inv}

module _ {A : Type 0} (blank : A) where
  -- The divider moves behind what the producer has seen.
  Produces-moved :
      (q : Queue A) (d : ℕ) (p : Place A)
      → q.divider ≤ d
      → Produces q p
      → Produces (record q { divider = d }) p
  Produces-moved q d (idle r) more at = tt
  Produces-moved q d (enqueue_link v) more at = tt
  Produces-moved q d (enqueue_publish l) more at = at
  Produces-moved q d enqueue_load more at = tt
  Produces-moved q d (enqueue_delete e) more at = (at.0, omega (arith, at, more))
  Produces-moved q d dequeue_divider more at = elim at [ ]
  Produces-moved q d (dequeue_last _) more at = elim at [ ]
  Produces-moved q d (dequeue_read _) more at = elim at [ ]
  Produces-moved q d (dequeue_store _ _) more at = elim at [ ]
  Produces-moved q d null_read more at = elim at [ ]

  last-Inv :
      (q : Queue A) (p : Place A) (d : ℕ)
      → Inv q p (dequeue_last d)
      → Inv q p (if d == q.last then idle (dequeued none) else dequeue_read d)
  last-Inv q p d inv = elim (Bool-cases (d == q.last)) [
    | inl none_left ↦
        rw none_left (record { chain = inv.chain; produces = inv.produces; consumes = tt })
    | inr more ↦ rw more (record {
      chain = inv.chain;
      produces = inv.produces;
      consumes = (inv.consumes, ground (arith, more, inv.consumes, inv.chain.behind));
    })
  ]

  read-Inv :
      (q : Queue A) (p : Place A) (d : ℕ)
      → Inv q p (dequeue_read d)
      → Inv q p (read_next q (q.next d))
  unfolding read_next
  read-Inv q p d inv =
      let linked : q.next d ≡ some (q.divider + 1) =
        ground (arith, inv.consumes, inv.chain.linked d, inv.chain.before) in
      rw linked (record {
        chain = inv.chain;
        produces = inv.produces;
        consumes = (
          refl,
          omega (arith, inv.consumes),
          inv.chain.values q.divider (omega arith) (omega (arith, inv.consumes)),
        );
      })

  consume-Inv :
      (c : Call A) (q : Queue A) (p p' : Place A)
      → Inv q p p'
      → Inv (two_sided_move blank c 0 q p').0 p (two_sided_move blank c 0 q p').1
  unfolding move enter
  consume-Inv c q p (idle r) inv = record {
    chain = inv.chain;
    produces = inv.produces;
    consumes = tt;
  }
  consume-Inv c q p dequeue_divider inv = record {
    chain = inv.chain;
    produces = inv.produces;
    consumes = refl;
  }
  consume-Inv c q p (dequeue_last d) inv = last-Inv q p d inv
  consume-Inv c q p (dequeue_read d) inv = read-Inv q p d inv
  consume-Inv c q p (dequeue_store n v) inv = record {
    chain = record {
      before = omega (arith, inv.chain.before, inv.consumes);
      behind = inv.consumes.1;
      counted = inv.chain.counted;
      made = inv.chain.made;
      linked = inv.chain.linked;
      ends = inv.chain.ends;
      alive = inv.chain.alive;
      dead = inv.chain.dead;
      values = λ k lo hi. inv.chain.values k (omega (arith, lo, inv.consumes)) hi;
    };
    produces = Produces-moved q n p (omega (arith, inv.consumes)) inv.produces;
    consumes = tt;
  }
  consume-Inv c q p (enqueue_link _) inv = elim inv.consumes [ ]
  consume-Inv c q p (enqueue_publish _) inv = elim inv.consumes [ ]
  consume-Inv c q p enqueue_load inv = elim inv.consumes [ ]
  consume-Inv c q p (enqueue_delete _) inv = elim inv.consumes [ ]
  consume-Inv c q p null_read inv = elim inv.consumes [ ]

  -- The queue as it is constructed, and both threads in no call.
  abbrev pub initial : System (Queue A) (Place A)
  initial = record { mem = new blank; pc = λ _. idle nothing }

  step-Inv :
      (i : ℕ) (c : Call A) (q : Queue A) (pc : ℕ → Place A)
      → i < 2
      → Inv q (pc 1) (pc 0)
      → Inv
          (two_sided_move blank c i q (pc i)).0
          (update pc i (two_sided_move blank c i q (pc i)).1 1)
          (update pc i (two_sided_move blank c i q (pc i)).1 0)
  unfolding ℕ_discrete
  step-Inv zero c q pc lt inv = consume-Inv c q (pc 1) (pc 0) inv
  step-Inv (suc zero) c q pc lt inv = produce-Inv blank 0 c q (pc 1) (pc 0) inv
  step-Inv (suc (suc i)) c q pc lt inv = absurd (omega (arith, lt))

  pub Reach-Inv :
      {s : System (Queue A) (Place A)}
      → Reach (two_sided_move blank) 2 initial s
      → Inv s.mem (s.pc 1) (s.pc 0)
  unfolding new
  Reach-Inv r =
      Reach-keeps (two_sided_move blank) 2 (λ q pc. Inv q (pc 1) (pc 0))
        (λ i c q pc lt inv. step-Inv i c q pc lt inv) {s = initial}
        (record {
          chain = record {
            before = omega arith;
            behind = omega arith;
            counted = refl;
            made = refl;
            linked = λ k lo hi. absurd (omega (arith, hi));
            ends = refl;
            alive = λ k lo hi. ground (arith, hi);
            dead = λ k h. ground (arith, h);
            values = λ k lo hi. absurd (omega (arith, hi));
          };
          produces = tt;
          consumes = tt;
        })
        r
