-- ===== src/Queue/MpscBuffered/Chain.antt =====
-- The nodes of a buffered `mpsc_queue` are one chain, from the buffer's head over the tail to the head.
use hope_threading.Prelude.{
  ℕ, suc, ◌+◌, ◌≤◌, ◌<◌, ◌≡◌, refl, subst, ◌≢◌, Option, none, some, List, [], ◌∷◌, ◌++◌, length,
  get_elem?, arith, ℕ_discrete, length-append, get_elem?-append_left, get_elem?-append_length,
}
use hope_threading.Threads.{update}
use hope_threading.Queue.MpscBuffered.{Queue}

-- The node at each position, from `low` to `low + spare + items`.
pub record Chain {A : Type 0} (q : Queue A) (items : List A) (node : ℕ → ℕ) (low tail head : ℕ)
    : Type 0 where
  pub order : (low ≤ tail) × (tail + length items ≡ head)
  pub buffer_at : q.buffer_head ≡ some (node low)
  pub tail_at : q.tail ≡ node tail
  pub head_at : q.head ≡ node head
  pub follows : (k : ℕ) → low ≤ k → k < head → q.next (node k) ≡ some (node (k + 1))
  pub ends : q.next (node head) ≡ none
  pub distinct : (j k : ℕ) → low ≤ j → j ≤ head → low ≤ k → k ≤ head → node j ≡ node k → j ≡ k
  pub known : (k : ℕ) → low ≤ k → k ≤ head → node k < q.allocated
  pub counted : q.allocated + low ≡ head + 1
  pub values : (i : ℕ) → i < length items → get_elem? items i ≡ some (q.value (node (tail + 1 + i)))

module _ {A : Type 0} (q : Queue A) (items : List A) (node : ℕ → ℕ) (low tail head : ℕ)
    (c : Chain q items node low tail head) where
  -- A node that is at none of the positions from `low'` on becomes the new head.
  pub extended :
      (v : A) (n low' total : ℕ) (start : Option ℕ)
      → low ≤ low'
      → low' ≤ tail
      → ((k : ℕ) → low' ≤ k → k ≤ head → node k ≢ n)
      → q.allocated ≤ total
      → n < total
      → total + low' ≡ head + 2
      → start ≡ some (node low')
      → Chain
          (record q {
            value = update q.value n v;
            next = update (update q.next n none) q.head (some n);
            allocated = total;
            buffer_head = start;
            head = n;
          })
          (items ++ v ∷ [])
          (update node (head + 1) n)
          low'
          tail
          (head + 1)
  extended v n low' total start lo le apart more below count at = record {
    order = (le, omega (arith, length-append items (v ∷ []), c.order));
    buffer_at = ground (arith, at, le, c.order);
    tail_at = ground (arith, c.tail_at, c.order);
    head_at = ground arith;
    follows = λ k a b. elim (ℕ_discrete k head) [
      | yes last ↦ ground (arith, last, c.head_at)
      | no ne ↦
          ground
            (arith, ne, b, c.head_at, c.follows k, apart k a, c.distinct head k, lo, le, c.order, a)
    ];
    ends = ground (arith, c.head_at, apart head (omega (arith, le, c.order)));
    distinct = λ j k a b d e same.
        ground (arith, a, b, d, e, lo, same, c.distinct j k, apart j a, apart k d);
    known = λ k a b. ground (arith, c.known k, more, below, lo);
    counted = omega (arith, count);
    values = λ i lt. elim (ℕ_discrete i (length items)) [
      | yes last ↦ rw last (ground (arith, c.order, get_elem?-append_length items v))
      | no ne ↦ ground (
        arith,
        ne,
        lt,
        le,
        c.order,
        length-append items (v ∷ []),
        get_elem?-append_left items (v ∷ []) i,
        c.values i,
        apart (tail + 1 + i),
      )
    ];
  }

  next_value :
      (x : A) (rest : List A)
      → items ≡ x ∷ rest
      → (i : ℕ) → i < length rest
      → get_elem? rest i ≡ some (q.value (node (tail + 1 + 1 + i)))
  next_value x rest e i lt =
      subst (λ k. get_elem? rest i ≡ some (q.value (node k))) (omega arith)
        (subst (λ l. get_elem? l (suc i) ≡ some (q.value (node (tail + 1 + suc i)))) e
          (c.values (suc i) (ground (arith, e, lt))))

  -- The tail moves on by one node, whose value is given up.
  pub shortened :
      (blank x : A) (rest : List A)
      → items ≡ x ∷ rest
      → Chain
          (record q { tail = node (tail + 1); value = update q.value (node (tail + 1)) blank })
          rest
          node
          low
          (tail + 1)
          head
  shortened blank x rest e = record {
    order = ground (arith, c.order, e);
    buffer_at = c.buffer_at;
    tail_at = refl;
    head_at = c.head_at;
    follows = c.follows;
    ends = c.ends;
    distinct = c.distinct;
    known = c.known;
    counted = c.counted;
    values = λ i lt.
        ground (
          arith,
          lt,
          c.order,
          c.distinct (tail + 1) (tail + 1 + 1 + i),
          e,
          next_value x rest e i lt,
        );
  }
