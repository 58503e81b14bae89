-- ===== src/Queue/MpscBuffered/Held.antt =====
-- What a buffered `mpsc_queue` holds before and after a call.
use hope_threading.Prelude.{
  ℕ, ◌+◌, ◌≡◌, refl, ◌≢◌, Option, none, some, List, [], ◌∷◌, ◌++◌, length, arith, ℕ_discrete, ltb,
  if◌then◌else◌, Bool-cases, ==_iff, ◌==◌, inl, inr,
}
use hope_threading.Threads.{update}
use hope_threading.Queue.MpscBuffered.{
  Queue, new, fresh_node, used_again, alloc_node, linked, enqueue, popped, try_dequeue,
}
use hope_threading.Queue.MpscBuffered.Chain.{Chain, extended, shortened}

-- The larger of two numbers.
abbrev pub larger : ℕ → ℕ → ℕ
larger a b = if ltb a b then b else a

module _ {A : Type 0} where
  pub record Holds (q : Queue A) (items : List A) : Type 0 where
    pub node : ℕ → ℕ
    pub low : ℕ
    pub tail_pos : ℕ
    pub head_pos : ℕ
    pub chain : Chain q items node low tail_pos head_pos

  pub new-Holds : (blank : A) → Holds (new blank) []
  unfolding new
  new-Holds blank = record {
    node = λ k. k;
    low = 0;
    tail_pos = 0;
    head_pos = 0;
    chain = record {
      order = (omega arith, omega arith);
      buffer_at = refl;
      tail_at = refl;
      head_at = refl;
      follows = λ k a b. absurd (omega arith);
      ends = refl;
      distinct = λ j k a b d e same. same;
      known = λ k a b. omega arith;
      counted = omega arith;
      values = λ i lt. absurd (omega arith);
    };
  }

  module _ (q : Queue A) (items : List A) (h : Holds q items) where
    open h use {node, low, tail_pos, head_pos, chain}

    -- What `enqueue` leaves with node `n` as the new head.
    abbrev with_node : A → ℕ → ℕ → Option ℕ → Queue A
    with_node v n total start = record q {
      value = update q.value n v;
      next = update (update q.next n none) q.head (some n);
      allocated = total;
      buffer_head = start;
      head = n;
    }

    enqueue_new :
        (v : A)
        → low ≡ tail_pos
        → enqueue q v ≡ some (with_node v q.allocated (q.allocated + 1) q.buffer_head)
    unfolding enqueue linked alloc_node fresh_node used_again
    enqueue_new v full =
        rw (chain.buffer_at, (==_iff (node low) q.tail).1 (ground (arith, full, chain.tail_at)))
          refl

    enqueue_used :
        (v : A)
        → low ≢ tail_pos
        → enqueue q v ≡ some (with_node v (node low) q.allocated (q.next (node low)))
    unfolding enqueue linked alloc_node fresh_node used_again
    enqueue_used v spare = elim (Bool-cases (node low == q.tail)) [
      | inl same ↦ absurd (
          spare (
            chain.distinct low tail_pos (omega arith) (omega (arith, chain.order))
              (omega (arith, chain.order)) (omega (arith, chain.order))
              (ground (arith, same, chain.tail_at))))
      | inr other ↦ rw (chain.buffer_at, other) refl
    ]

    -- A new node is allocated if the buffer's head is the tail, and otherwise the buffer's head is used.
    pub enqueue-Holds :
        (v : A)
        → (q' : Queue A) × (enqueue q v ≡ some q')
          × Holds q' (items ++ v ∷ [])
          × (q'.allocated ≡ larger q.allocated (length items + 2))
    enqueue-Holds v = elim (ℕ_discrete low tail_pos) [
      | yes full ↦ (
        with_node v q.allocated (q.allocated + 1) q.buffer_head,
        enqueue_new v full,
        record {
          node = update node (head_pos + 1) q.allocated;
          low = low;
          tail_pos = tail_pos;
          head_pos = head_pos + 1;
          chain =
              extended q items node low tail_pos head_pos chain v q.allocated low (q.allocated + 1)
                q.buffer_head (omega arith) (omega (arith, full))
                (λ k a b e. absurd (omega (arith, chain.known k a b, e))) (omega arith)
                (omega arith) (omega (arith, chain.counted)) chain.buffer_at;
        },
        ground (arith, chain.counted, chain.order, full),
      )
      | no spare ↦ (
        with_node v (node low) q.allocated (q.next (node low)),
        enqueue_used v spare,
        record {
          node = update node (head_pos + 1) (node low);
          low = low + 1;
          tail_pos = tail_pos;
          head_pos = head_pos + 1;
          chain =
              extended q items node low tail_pos head_pos chain v (node low) (low + 1) q.allocated
                (q.next (node low)) (omega arith) (omega (arith, spare, chain.order))
                (λ k a b e. absurd (
                  omega (
                    arith,
                    a,
                    chain.distinct k low (omega (arith, a)) b (omega arith) (omega (arith, a, b)) e,
                  )))
                (omega arith) (chain.known low (omega arith) (omega (arith, chain.order)))
                (omega (arith, chain.counted))
                (chain.follows low (omega arith) (omega (arith, spare, chain.order)));
        },
        ground (arith, chain.counted, chain.order, spare),
      )
    ]

    pub dequeue_empty : (blank : A) → items ≡ [] → try_dequeue blank q ≡ (q, none)
    unfolding try_dequeue popped
    dequeue_empty blank e = rw nothing refl
      where
        nothing : q.next q.tail ≡ none
        nothing = ground (arith, chain.tail_at, chain.ends, chain.order, e)

    pub dequeue_first :
        (blank x : A) (rest : List A)
        → items ≡ x ∷ rest
        → (q' : Queue A) × (try_dequeue blank q ≡ (q', some x))
          × Holds q' rest
          × (q'.allocated ≡ q.allocated)
    unfolding try_dequeue popped
    dequeue_first blank x rest e = (
      record q { tail = node (tail_pos + 1); value = update q.value (node (tail_pos + 1)) blank },
      rw (next_is, value_is) refl,
      record {
        node = node;
        low = low;
        tail_pos = tail_pos + 1;
        head_pos = head_pos;
        chain = shortened q items node low tail_pos head_pos chain blank x rest e;
      },
      refl,
    )
      where
        next_is : q.next q.tail ≡ some (node (tail_pos + 1))
        next_is = ground (arith, chain.tail_at, chain.follows tail_pos, chain.order, e)

        value_is : q.value (node (tail_pos + 1)) ≡ x
        value_is = ground (arith, chain.values 0, e)
