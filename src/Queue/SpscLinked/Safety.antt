-- ===== src/Queue/SpscLinked/Safety.antt =====
-- What `spsc_queue` promises in each reachable state of a consumer and a producer.
use hope_threading.Prelude.{
  ℕ, ◌≤◌, ◌<◌, ◌≡◌, sym, ◌∙◌, subst, ◌≢◌, ◌↔◌, none, some, arith, dec_lt, ℕ_discrete, length,
  get_elem?,
}
use hope_threading.Threads.{System, Reach, turn}
use hope_threading.Queue.SpscLinked.{
  Queue, Place, Call, move, tested, idle, dequeued, alloc_cached, enqueue_link, dequeue_load,
  dequeue_store, null_read,
}
use hope_threading.Queue.SpscLinked.Invariant.{two_sided_move, Inv, Produces, Consumes}
use hope_threading.Queue.SpscLinked.Reached.{initial, Reach-Inv, tail-next}

module _ {A : Type 0} (blank : A) {s : System (Queue A) (Place A)}
    (r : Reach (two_sided_move blank) 2 (initial blank) s) where
  inv : Inv s.mem (s.pc 1) (s.pc 0)
  inv = Reach-Inv blank r

  -- First in, first out: of one consumer and one producer, the value that the consumer is about to return
  -- is the one that was entered at the tail's position, of those that have been linked.
  pub read_in_order :
      (v : A)
      → s.pc 0 ≡ dequeue_store v
      → (get_elem? s.mem.entered s.mem.tail_pos ≡ some v)
        × (s.mem.tail_pos < s.mem.head_pos)
        × (length s.mem.entered ≡ s.mem.head_pos)
  read_in_order v at =
      let says = subst (Consumes s.mem) at inv.consumes in (says.1, says.0, inv.chain.counted)

  apart_from_chain :
      (k : ℕ)
      → s.mem.first_pos < s.mem.copy_pos
      → s.mem.tail_pos ≤ k
      → k ≤ s.mem.head_pos
      → s.mem.first ≢ s.mem.at k
  apart_from_chain k left lo hi e =
      inv.chain.distinct s.mem.first_pos k (omega arith) (omega (arith, left, lo, inv.chain.copied))
        hi (sym inv.chain.first_at ∙ e)

  -- No node is used again too early: the cached node that the producer is about to overwrite is none of
  -- those from the tail to the head, a node that it is about to link is none of them either, and neither
  -- thread reads through a null pointer.
  pub cached_apart :
      ((v : A) (k : ℕ)
        → s.pc 1 ≡ alloc_cached v
        → s.mem.tail_pos ≤ k
        → k ≤ s.mem.head_pos
        → s.mem.first ≢ s.mem.at k)
      × ((n k : ℕ) (v : A)
          → s.pc 1 ≡ enqueue_link n v
          → s.mem.tail_pos ≤ k
          → k ≤ s.mem.head_pos
          → s.mem.at k ≢ n)
      × (s.pc 0 ≢ null_read)
      × (s.pc 1 ≢ null_read)
  cached_apart = (
    λ v k at lo hi. apart_from_chain k (subst (Produces s.mem) at inv.produces) lo hi,
    λ n k v at lo hi.
        (subst (Produces s.mem) at inv.produces).apart k
          (omega (arith, lo, inv.chain.cached, inv.chain.copied)) hi,
    λ at. subst (Consumes s.mem) at inv.consumes,
    λ at. subst (Produces s.mem) at inv.produces,
  )

  -- `try_dequeue` finds nothing exactly if every item that has been linked has been taken.
  pub nothing_iff_empty :
      (c : Call A)
      → s.pc 0 ≡ dequeue_load
      → ((turn (two_sided_move blank) 0 c s).pc 0 ≡ idle (dequeued none))
        ↔ (s.mem.tail_pos ≡ length s.mem.entered)
  unfolding move tested ℕ_discrete
  nothing_iff_empty c at = elim (dec_lt s.mem.tail_pos s.mem.head_pos) [
    | yes left ↦
        (let linked = tail-next blank s.mem inv.chain left in
          (
            λ answer. absurd (ground (arith, at, answer, linked)),
            λ empty. absurd (omega (arith, inv.chain.counted, left, empty)),
          ))
    | no none_left ↦
        (let ended : s.mem.next s.mem.tail ≡ none =
            ground (arith, inv.chain.tail_at, inv.chain.ends, inv.chain.order, none_left) in
          (
            λ answer. omega (arith, inv.chain.counted, inv.chain.order, none_left),
            λ empty. ground (arith, at, ended),
          ))
  ]
