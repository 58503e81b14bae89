-- ===== src/Queue/MpscLinked/Freed.antt =====
-- The destructor of `mpsc_queue`.
use hope_threading.Prelude.{some, Bool, ◌≤◌, ℕ, ◌+◌, ◌-◌, ◌<◌, ◌≡◌, inl, inr, false, arith, length}
use hope_threading.Threads.{System, Reach}
use hope_threading.Queue.Destroy.{finished, delete_all-lem}
use hope_threading.Queue.MpscLinked.{Queue, Place, Result, idle, destroy}
use hope_threading.Queue.MpscLinked.Invariant.{one_consumer_move, Inv}
use hope_threading.Queue.MpscLinked.Keeps.{initial, Reach-Inv}

module _ {A : Type 0} (blank : A) {n : ℕ} {s : System (Queue A) (Place A)}
    (r : Reach (one_consumer_move blank) n (initial blank n) s) where
  inv : Inv n s.mem s.pc
  inv = Reach-Inv blank n r

  -- No thread is in a call.
  abbrev pub AtRest : Type 0
  AtRest = (j : ℕ) → j < n → (b : Result A) × (s.pc j ≡ idle b)

  linked_all : AtRest → (k : ℕ) → s.mem.tail ≤ k → k < s.mem.head → s.mem.next k ≡ some (k + 1)
  linked_all rest k lo hi = elim (inv.linked k lo hi) [
    | inl linked ↦ linked
    | inr (_, lt, stands) ↦ absurd (ground (arith, stands, rest (s.mem.linker k) lt))
  ]

  -- The destructor ends and leaks nothing: once none of the threads, of which there is at least the
  -- consumer, is in a call, its loop ends within one round more than items have been entered, no round
  -- reads a deleted node, and no node is left allocated.
  pub destroy_frees_all :
      (rounds : ℕ)
      → 0 < n
      → AtRest
      → length s.mem.entered < rounds
      → (after : ℕ → Bool) × (destroy rounds s.mem ≡ finished after) × ((k : ℕ) → after k ≡ false)
  unfolding destroy
  destroy_frees_all rounds some_thread rest enough =
      let top : s.mem.tail + (s.mem.head - s.mem.tail) ≡ s.mem.head = omega (arith, inv.order) in
      delete_all-lem (s.mem.head - s.mem.tail) rounds s.mem.next s.mem.live s.mem.tail
        (omega (arith, inv.counted, enough))
        (record {
          linked = λ k lo hi. linked_all rest k lo (omega (arith, hi, top));
          ends = inv.unlinked (s.mem.tail + (s.mem.head - s.mem.tail)) (omega (arith, top));
          alive = λ k lo hi. inv.alive k lo (omega (arith, hi, top));
          dead = λ k h. ground (arith, inv.dead k h, rest 0 some_thread, top);
        })
