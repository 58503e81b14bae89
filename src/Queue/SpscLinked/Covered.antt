-- ===== src/Queue/SpscLinked/Covered.antt =====
-- Each node that is allocated is in the chain, or the producer is about to link it.
use hope_threading.Prelude.{
  ℕ, zero, suc, ◌+◌, ◌≤◌, ◌<◌, ◌≡◌, refl, ◌⊎◌, inl, inr, Option, none, some, arith, ℕ_discrete,
  ◌==◌, if◌then◌else◌,
}
use hope_threading.Threads.{update, System, Reach, Reach-keeps}
use hope_threading.Queue.SpscLinked.{
  Queue, Place, Call, move, enter, new, idle, alloc_test, take_cached, make_new, link, store_tail,
  alloc_load, alloc_again, alloc_cached, alloc_new, enqueue_link, dequeue_load, dequeue_read,
  dequeue_store, null_read, nothing,
}
use hope_threading.Queue.SpscLinked.Invariant.{two_sided_move, Inv}
use hope_threading.Queue.SpscLinked.Chains.{cached-next}
use hope_threading.Queue.SpscLinked.Reached.{initial, initial-Inv, step-Inv, tail-next}

module _ {A : Type 0} where
  -- The node that the producer has taken and not linked yet.
  abbrev pub pending : Place A → Option ℕ
  pending (enqueue_link n v) = some n
  pending _ = none

  abbrev pub Covers : Queue A → Place A → Type 0
  Covers q p =
      (a : ℕ)
      → a < q.fresh
      → ((k : ℕ) × (q.first_pos ≤ k) × (k ≤ q.head_pos) × (q.at k ≡ a)) ⊎ (pending p ≡ some a)

  cached-Covers :
      (q : Queue A) (v : A) (n : ℕ)
      → q.first ≡ q.at q.first_pos
      → Covers q (alloc_cached v)
      → Covers (take_cached v q (some n)).0 (enqueue_link q.first v)
  unfolding take_cached
  cached-Covers q v n first_at covers a lt = elim (covers a lt) [
    | inl (k, lo, hi, here) ↦ elim (ℕ_discrete q.first_pos k) [
      | yes e ↦ inr (ground (arith, e, here, first_at))
      | no ne ↦ inl (k, omega (arith, ne, lo), hi, here)
    ]
    | inr e ↦ absurd (ground (arith, e))
  ]

  new-Covers :
      (q : Queue A) (v : A)
      → Covers q (alloc_new v)
      → Covers (make_new v q).0 (enqueue_link q.fresh v)
  unfolding make_new
  new-Covers q v covers a lt = elim (ℕ_discrete a q.fresh) [
    | yes e ↦ inr (ground (arith, e))
    | no ne ↦ elim (covers a (omega (arith, ne, lt))) [
      | inl found ↦ inl found
      | inr e ↦ absurd (ground (arith, e))
    ]
  ]

  link-Covers :
      (q : Queue A) (n : ℕ) (v : A)
      → q.first_pos ≤ q.head_pos
      → Covers q (enqueue_link n v)
      → Covers (link n v q).0 (idle nothing)
  unfolding link
  link-Covers q n v order covers a lt = elim (covers a lt) [
    | inl (k, lo, hi, here) ↦ inl (k, lo, omega (arith, hi), ground (arith, hi, here))
    | inr e ↦ inl (q.head_pos + 1, omega (arith, order), omega arith, ground (arith, e))
  ]

  test-Covers :
      (q : Queue A) (v : A) (p p' : Place A)
      → pending p ≡ none
      → pending p' ≡ none
      → Covers q p
      → Covers q (if q.first == q.tail_copy then p' else alloc_cached v)
  test-Covers q v p p' none_now none_then covers a lt = elim (covers a lt) [
    | inl found ↦ inl found
    | inr e ↦ absurd (ground (arith, e, none_now))
  ]

  produce-Covers :
      (blank : A) (c : Call A) (q : Queue A) (p p' : Place A)
      → Inv q p p'
      → Covers q p
      → Covers (two_sided_move blank c 1 q p).0 (two_sided_move blank c 1 q p).1
  unfolding move enter take_cached make_new link
  produce-Covers blank (Call.enqueue v) q (idle r) p' inv covers = covers
  produce-Covers blank Call.try_dequeue q (idle r) p' inv covers = covers
  produce-Covers blank c q (alloc_test v) p' inv covers =
      test-Covers q v (alloc_test v) (alloc_load v) refl refl covers
  produce-Covers blank c q (alloc_load v) p' inv covers = covers
  produce-Covers blank c q (alloc_again v) p' inv covers =
      test-Covers q v (alloc_again v) (alloc_new v) refl refl covers
  produce-Covers blank c q (alloc_cached v) p' inv covers =
      rw (cached-next q inv.chain inv.produces)
        (cached-Covers q v (q.at (q.first_pos + 1)) inv.chain.first_at covers)
  produce-Covers blank c q (alloc_new v) p' inv covers = new-Covers q v covers
  produce-Covers blank c q (enqueue_link n v) p' inv covers =
      link-Covers q n v (omega (arith, inv.chain.cached, inv.chain.copied, inv.chain.order)) covers
  produce-Covers blank c q dequeue_load p' inv covers = elim inv.produces [ ]
  produce-Covers blank c q dequeue_read p' inv covers = elim inv.produces [ ]
  produce-Covers blank c q (dequeue_store v) p' inv covers = elim inv.produces [ ]
  produce-Covers blank c q null_read p' inv covers = elim inv.produces [ ]

  consume-Covers :
      (blank : A) (c : Call A) (q : Queue A) (p p' : Place A)
      → Inv q p p'
      → Covers q p
      → Covers (two_sided_move blank c 0 q p').0 p
  unfolding move store_tail
  consume-Covers blank c q p (idle r) inv covers = covers
  consume-Covers blank c q p dequeue_load inv covers = covers
  consume-Covers blank c q p dequeue_read inv covers = covers
  consume-Covers blank c q p (dequeue_store v) inv covers =
      rw (tail-next blank q inv.chain inv.consumes.0) covers
  consume-Covers blank c q p (alloc_test _) inv covers = elim inv.consumes [ ]
  consume-Covers blank c q p (alloc_load _) inv covers = elim inv.consumes [ ]
  consume-Covers blank c q p (alloc_again _) inv covers = elim inv.consumes [ ]
  consume-Covers blank c q p (alloc_cached _) inv covers = elim inv.consumes [ ]
  consume-Covers blank c q p (alloc_new _) inv covers = elim inv.consumes [ ]
  consume-Covers blank c q p (enqueue_link _ _) inv covers = elim inv.consumes [ ]
  consume-Covers blank c q p null_read inv covers = elim inv.consumes [ ]

  step-Covers :
      (blank : A) (i : ℕ) (c : Call A) (q : Queue A) (pc : ℕ → Place A)
      → i < 2
      → Inv q (pc 1) (pc 0)
      → Covers q (pc 1)
      → Covers
          (two_sided_move blank c i q (pc i)).0
          (update pc i (two_sided_move blank c i q (pc i)).1 1)
  unfolding ℕ_discrete
  step-Covers blank zero c q pc lt inv covers = consume-Covers blank c q (pc 1) (pc 0) inv covers
  step-Covers blank (suc zero) c q pc lt inv covers =
      produce-Covers blank c q (pc 1) (pc 0) inv covers
  step-Covers blank (suc (suc i)) c q pc lt inv covers = absurd (omega (arith, lt))

  pub Reach-Covers :
      (blank : A) {s : System (Queue A) (Place A)}
      → Reach (two_sided_move blank) 2 (initial blank) s
      → Inv s.mem (s.pc 1) (s.pc 0) × Covers s.mem (s.pc 1)
  unfolding new
  Reach-Covers blank r =
      Reach-keeps (two_sided_move blank) 2 (λ q pc. Inv q (pc 1) (pc 0) × Covers q (pc 1))
        (λ i c q pc lt both.
          (step-Inv blank i c q pc lt both.0, step-Covers blank i c q pc lt both.0 both.1))
        {s = initial blank}
        (initial-Inv blank, λ a lt. inl (0, omega arith, omega arith, omega (arith, lt))) r
