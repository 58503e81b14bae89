-- ===== src/Queue/Sutter/Freed.antt =====
-- The destructor of `sutter_queue`.
use hope_threading.Prelude.{none, Bool, ℕ, ◌+◌, ◌-◌, ◌<◌, ◌≡◌, subst, false, arith, length}
use hope_threading.Threads.{System, Reach}
use hope_threading.Queue.Destroy.{finished, delete_all-lem}
use hope_threading.Queue.Sutter.{Queue, Place, Result, idle, destroy}
use hope_threading.Queue.Sutter.Invariant.{pending, two_sided_move, Chain}
use hope_threading.Queue.Sutter.Reached.{initial, Reach-Inv}

module _ {A : Type 0} (blank : A) {s : System (Queue A) (Place A)}
    (r : Reach (two_sided_move blank) 2 (initial blank) s) where
  -- The destructor ends and leaks nothing: in each reachable state where the producer is in no call, its
  -- loop ends within one round more than items have been entered, no round reads a deleted node, and no
  -- node is left allocated.
  pub destroy_frees :
      (b : Result A) (rounds : ℕ)
      → s.pc 1 ≡ idle b
      → length s.mem.entered < rounds
      → (after : ℕ → Bool) × (destroy rounds s.mem ≡ finished after) × ((k : ℕ) → after k ≡ false)
  unfolding destroy
  destroy_frees b rounds at enough =
      let chain : Chain s.mem 0 =
        subst (λ p. Chain s.mem (pending p)) at (Reach-Inv blank r).chain in
      delete_all-lem (s.mem.last - s.mem.first) rounds s.mem.next s.mem.live s.mem.first
        (omega (arith, chain.counted, enough))
        (record {
          linked = λ k lo hi. chain.linked k lo (omega (arith, hi, chain.before, chain.behind));
          ends =
              subst (λ k. s.mem.next k ≡ none) {x = s.mem.last + 0}
                (omega (arith, chain.before, chain.behind)) chain.ends;
          alive = λ k lo hi. chain.alive k lo (omega (arith, hi, chain.before, chain.behind));
          dead = λ k h. omega (arith, chain.dead k h);
        })
