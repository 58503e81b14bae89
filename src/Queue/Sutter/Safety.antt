-- ===== src/Queue/Sutter/Safety.antt =====
-- What `sutter_queue` promises in each reachable state of a consumer and a producer.
use hope_threading.Prelude.{
  ℕ, ◌+◌, ◌≤◌, ◌≡◌, subst, ◌≢◌, true, Option, none, some, arith, ◌==◌, if◌then◌else◌, get_elem?,
}
use hope_threading.Threads.{System, Reach}
use hope_threading.Queue.Sutter.{
  Queue, Place, idle, enqueue_link, enqueue_publish, enqueue_load, enqueue_delete, dequeue_divider,
  dequeue_last, dequeue_read, dequeue_store, null_read,
}
use hope_threading.Queue.Sutter.Invariant.{two_sided_move, pending, Inv, Produces, Consumes}
use hope_threading.Queue.Sutter.Reached.{initial, Reach-Inv}

-- The node that a thread's next move reads, writes or deletes; the read of the value by `dequeue_read` is
-- that of the node behind.
abbrev pub touched : {A : Type 0} → Queue A → Place A → Option ℕ
touched q (enqueue_link v) = some q.last
touched q (enqueue_publish l) = some l
touched q (enqueue_delete d) = if q.first == d then none else some q.first
touched q (dequeue_read d) = some d
touched q _ = none

module _ {A : Type 0} (blank : A) {s : System (Queue A) (Place A)}
    (r : Reach (two_sided_move blank) 2 (initial blank) s) where
  produced-live :
      (q : Queue A) (p p' : Place A) (k : ℕ) → Inv q p p' → touched q p ≡ some k → q.live k ≡ true
  produced-live q (enqueue_link v) p' k inv e =
      ground (arith, e, inv.chain.alive q.last, inv.chain.before, inv.chain.behind)
  produced-live q (enqueue_publish l) p' k inv e =
      ground (arith, e, inv.produces, inv.chain.alive q.last, inv.chain.before, inv.chain.behind)
  produced-live q (enqueue_delete d) p' k inv e =
      ground (arith, e, inv.chain.alive q.first, inv.chain.before, inv.chain.behind)
  produced-live q (idle _) p' k inv e = absurd (ground (arith, e))
  produced-live q enqueue_load p' k inv e = absurd (ground (arith, e))
  produced-live q dequeue_divider p' k inv e = elim inv.produces [ ]
  produced-live q (dequeue_last _) p' k inv e = elim inv.produces [ ]
  produced-live q (dequeue_read _) p' k inv e = elim inv.produces [ ]
  produced-live q (dequeue_store _ _) p' k inv e = elim inv.produces [ ]
  produced-live q null_read p' k inv e = elim inv.produces [ ]

  read_at :
      (d : ℕ)
      → Consumes s.mem (dequeue_read d)
      → (p : ℕ) × (s.mem.next d ≡ some p) × (s.mem.live d ≡ true) × (s.mem.live p ≡ true)
  read_at d says =
      let chain = (Reach-Inv blank r).chain in
      (
        d + 1,
        chain.linked d (omega (arith, says, chain.before)) (omega (arith, says)),
        chain.alive d (omega (arith, says, chain.before)) (omega (arith, says)),
        chain.alive (d + 1) (omega (arith, says, chain.before)) (omega (arith, says)),
      )

  -- Neither thread touches a deleted node or reads through a null pointer: of one consumer and one
  -- producer, the node that the next move of either reads, writes or deletes is allocated, as is the node
  -- behind the divider that the consumer reads; and nothing leaks, in that only the nodes from the first
  -- one to the last one are allocated, and between its link and the store of `m_last` the newest one.
  pub nodes_allocated :
      ((k : ℕ) → touched s.mem (s.pc 1) ≡ some k → s.mem.live k ≡ true)
      × ((d : ℕ)
          → s.pc 0 ≡ dequeue_read d
          → (p : ℕ) × (s.mem.next d ≡ some p) × (s.mem.live d ≡ true) × (s.mem.live p ≡ true))
      × (s.pc 0 ≢ null_read)
      × (s.pc 1 ≢ null_read)
      × ((k : ℕ) → s.mem.live k ≡ true → (s.mem.first ≤ k) × (k ≤ s.mem.last + pending (s.pc 1)))
  nodes_allocated =
      let inv = Reach-Inv blank r in
      (
        λ k e. produced-live s.mem (s.pc 1) (s.pc 0) k inv e,
        λ d e. read_at d (subst (Consumes s.mem) e inv.consumes),
        λ e. subst (Consumes s.mem) e inv.consumes,
        λ e. subst (Produces s.mem) e inv.produces,
        inv.chain.dead,
      )

  -- First in, first out: the value that the consumer is about to return is the one that was entered at
  -- the divider's position, to which it adds one, and it has been published.
  pub divided_in_order :
      (p : ℕ) (v : A)
      → s.pc 0 ≡ dequeue_store p v
      → (get_elem? s.mem.entered s.mem.divider ≡ some v)
        × (p ≡ s.mem.divider + 1)
        × (p ≤ s.mem.last)
  divided_in_order p v at =
      let says = subst (Consumes s.mem) at (Reach-Inv blank r).consumes in (says.2, says.0, says.1)
