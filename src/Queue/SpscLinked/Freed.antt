-- ===== src/Queue/SpscLinked/Freed.antt =====
-- The destructor of `spsc_queue`.
use hope_threading.Prelude.{
  ℕ, ◌-◌, ◌≤◌, ◌<◌, ◌≡◌, sym, ap, subst, false, none, inl, inr, Bool, ltb, arith, length,
}
use hope_threading.Threads.{System, Reach}
use hope_threading.Queue.Destroy.{finished, delete_all-at, FreesAll}
use hope_threading.Queue.SpscLinked.{Queue, Place, Result, idle, destroy}
use hope_threading.Queue.SpscLinked.Invariant.{two_sided_move, Chain}
use hope_threading.Queue.SpscLinked.Covered.{pending, Reach-Covers}
use hope_threading.Queue.SpscLinked.Reached.{initial}

module _ {A : Type 0} (blank : A) {s : System (Queue A) (Place A)}
    (r : Reach (two_sided_move blank) 2 (initial blank) s) where
  -- The destructor ends and leaks nothing: in each reachable state where the producer is in no call, its
  -- loop ends within one round more than items have been entered, no round reads a deleted node, and
  -- none of the nodes that have been allocated, used again or not, is left.
  pub destroy_frees_nodes :
      (b : Result A) (rounds : ℕ)
      → s.pc 1 ≡ idle b
      → length s.mem.entered < rounds
      → (after : ℕ → Bool) × (destroy rounds s.mem ≡ finished after) × ((k : ℕ) → after k ≡ false)
  unfolding destroy
  destroy_frees_nodes b rounds here enough =
      subst (FreesAll rounds s.mem.next (λ k. ltb k s.mem.fresh)) (sym ch.first_at) (
        delete_all-at s.mem.at (s.mem.head_pos - s.mem.first_pos) rounds s.mem.next
          (λ k. ltb k s.mem.fresh) s.mem.first_pos (omega (arith, ch.counted, enough))
          (record {
            linked = λ k lo hi. ch.linked k lo (omega (arith, hi, long));
            ends =
                subst (λ k. s.mem.next (s.mem.at k) ≡ none) {x = s.mem.head_pos}
                  (omega (arith, long)) ch.ends;
            alive = λ k lo hi. ground (arith, ch.allocated k lo (omega (arith, hi, long)));
            distinct = λ j k lo lt hi. ch.distinct j k lo lt (omega (arith, hi, long));
            dead = λ a live. elim ((Reach-Covers blank r).1 a (ground (arith, live))) [
              | inl (k, lo, hi, at_k) ↦ (k, lo, omega (arith, hi), at_k)
              | inr e ↦ absurd (ground (arith, ap pending here, e))
            ];
          }))
    where
      ch : Chain s.mem
      ch = (Reach-Covers blank r).0.chain

      long : s.mem.first_pos ≤ s.mem.head_pos
      long = omega (arith, ch.cached, ch.copied, ch.order)
