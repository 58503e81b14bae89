-- ===== src/Queue/MpscLinked/Safety.antt =====
-- What `mpsc_queue` promises in each reachable state, for one consumer.
use hope_threading.Prelude.{
  ℕ, ◌+◌, ◌≤◌, ◌<◌, ◌≡◌, ◌⊎◌, ◌↔◌, inl, inr, true, Option, none, some, arith, dec_lt, length,
  get_elem?,
}
use hope_threading.Threads.{System, Reach, turn}
use hope_threading.Queue.MpscLinked.{
  Queue, Place, Call, move, popped, idle, enqueue_new, enqueue_exchange, enqueue_link, dequeue_load,
  dequeue_read, dequeue_move, dequeue_delete, dequeued,
}
use hope_threading.Queue.MpscLinked.Invariant.{At, Inv, leftover, one_consumer_move}
use hope_threading.Queue.MpscLinked.Keeps.{initial, Reach-Inv}

-- The node that a thread's next move reads, writes or deletes.
abbrev pub touched : {A : Type 0} → Queue A → Place A → Option ℕ
touched q (enqueue_link old node) = some old
touched q dequeue_load = some q.tail
touched q (dequeue_read p) = some p
touched q (dequeue_move p v) = some p
touched q (dequeue_delete old v) = some old
touched q _ = none

module _ {A : Type 0} (blank : A) {n : ℕ} {s : System (Queue A) (Place A)}
    (r : Reach (one_consumer_move blank) n (initial blank n) s) where
  inv : Inv n s.mem s.pc
  inv = Reach-Inv blank n r

  touched-live :
      (q : Queue A) (pc : ℕ → Place A) (i k : ℕ) (p : Place A)
      → Inv n q pc
      → At q i p
      → touched q p ≡ some k
      → q.live k ≡ true
  touched-live q pc i k (enqueue_link a b) v at e = ground (arith, v.alive a, at, e)
  touched-live q pc i k dequeue_load v at e = ground (arith, v.alive q.tail, v.order, e)
  touched-live q pc i k (dequeue_read p) v at e =
      ground (arith, v.alive p, v.linked q.tail, v.unlinked q.tail, v.order, at, e)
  touched-live q pc i k (dequeue_move p w) v at e =
      ground (arith, v.alive p, v.linked q.tail, v.unlinked q.tail, v.order, at, e)
  touched-live q pc i k (dequeue_delete old w) v at e = ground (arith, at, e)
  touched-live q pc i k (idle r) v at e = absurd (ground (arith, e))
  touched-live q pc i k (enqueue_new w) v at e = absurd (ground (arith, e))
  touched-live q pc i k (enqueue_exchange w) v at e = absurd (ground (arith, e))

  -- No thread touches a deleted node: with one consumer and any number of producers, the node that a
  -- thread's next move reads, writes or deletes is allocated; no other published nodes are allocated
  -- than those from the tail to the head and the one that the consumer is about to delete; and a thread
  -- has a node that is not published exactly while it stands before the exchange that publishes it.
  pub nodes_live :
      ((i k : ℕ) → i < n → touched s.mem (s.pc i) ≡ some k → s.mem.live k ≡ true)
      × ((k : ℕ)
          → s.mem.live k ≡ true
          → ((s.mem.tail ≤ k) × (k ≤ s.mem.head)) ⊎ (leftover (s.pc 0) ≡ some k))
      × ((i : ℕ) → i < n → (s.mem.built i ≡ true) ↔ ((v : A) × (s.pc i ≡ enqueue_exchange v)))
  nodes_live = (
    λ i k lt e. touched-live s.mem s.pc i k (s.pc i) inv (inv.places i lt) e,
    inv.dead,
    λ i lt. (inv.private i, λ (v, e). ground (arith, inv.places i lt, e)),
  )

  -- First in, first out: with one consumer and any number of producers, the value that the consumer is
  -- about to return is the one that was entered at the position of the node that it leaves, the tail is
  -- the position behind it, and so many items have been entered as the head says.
  pub returned_in_order :
      (old : ℕ) (v : A)
      → 0 < n
      → s.pc 0 ≡ dequeue_delete old v
      → (get_elem? s.mem.entered old ≡ some v)
        × (old + 1 ≡ s.mem.tail)
        × (s.mem.tail ≤ s.mem.head)
        × (length s.mem.entered ≡ s.mem.head)
  returned_in_order old v some_thread at =
      ground (arith, inv.places 0 some_thread, at, inv.order, inv.counted)

  -- `try_dequeue` finds nothing only if there is nothing, or if the producer of the next item has
  -- exchanged the head and has still to link its node.
  pub nothing_only_if :
      (c : Call A)
      → 0 < n
      → s.pc 0 ≡ dequeue_load
      → (turn (one_consumer_move blank) 0 c s).pc 0 ≡ idle (dequeued none)
      → (s.mem.tail ≡ s.mem.head)
        ⊎ ((j : ℕ) × (j < n) × (s.pc j ≡ enqueue_link s.mem.tail (s.mem.tail + 1)))
  unfolding move popped
  nothing_only_if c some_thread at answer = elim (dec_lt s.mem.tail s.mem.head) [
    | no above ↦ inl (omega (arith, inv.order, above))
    | yes below ↦ elim (inv.linked s.mem.tail (omega arith) below) [
      | inl linked ↦ absurd (ground (arith, linked, at, answer))
      | inr (_, lt, stands) ↦ inr (s.mem.linker s.mem.tail, lt, stands)
    ]
  ]
