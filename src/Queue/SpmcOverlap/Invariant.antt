-- ===== src/Queue/SpmcOverlap/Invariant.antt =====
-- What the writer's position, the buffer and the places of the threads say of one another, where thread 0
-- alone writes and the others alone read.
use hope_threading.Prelude.{
  ℕ, zero, suc, ◌+◌, ◌%◌, ◌^◌, ◌≤◌, ◌<◌, ◌≡◌, refl, sym, ◌∙◌, subst, inl, inr, ◌≢◌, true, none,
  some, [], ◌∷◌, ◌++◌, arith, ◌==◌, ltb, Bool-cases, length, get_elem?, get_elem?-append_left,
  get_elem?-append_length, length-append, ℕ_discrete,
}
use native.Mathlib.Nat.{mod-eq_of_lt}
use hope_threading.Threads.{Mover, update}
use hope_threading.Queue.Slots.{slots_apart}
use hope_threading.Queue.SpmcOverlap.{
  Message, Queue, Place, Call, move, enter, try_enqueue, try_dequeue, create_consumer, outside,
  enqueue_load, enqueue_write, enqueue_store, enqueued, consumer_load, consumer, dequeue_load,
  dequeue_read,
}

module _ {A : Type 0} (size units : ℕ) where
  -- A client whose thread 0 writes and calls nothing else, which the others do not call.
  abbrev permit : Message A → ℕ → Call A → Call A
  permit blank zero (try_enqueue v) = try_enqueue v
  permit blank zero c = try_enqueue blank
  permit blank (suc i) (try_enqueue v) = try_dequeue v
  permit blank (suc i) c = c

  abbrev pub one_writer : Message A → Mover (Call A) (Queue A) (Place A)
  one_writer blank c i q p = move size units (permit blank i c) i q p

  -- Whether the writer has begun a message and has still to store the position.
  abbrev pub ahead : Place A → ℕ
  ahead (enqueue_write v pos k) = 1
  ahead (enqueue_store pos) = 1
  ahead _ = 0

  -- The first `k` units of two messages are the same.
  abbrev pub Agree : ℕ → Message A → Message A → Type 0
  Agree k a b = (u : ℕ) → u < k → a u ≡ b u

  -- The first `k` units of `a` are those of the message of position `p`.
  abbrev pub Copied : Queue A → ℕ → ℕ → Message A → Type 0
  Copied q p k a = (m : Message A) → get_elem? q.log p ≡ some m → Agree k a m

  abbrev pub At : Queue A → ℕ → Place A → Type 0
  At q j outside = Unit
  At q j (enqueue_load v) = j ≡ 0
  At q j (enqueue_write v pos k) =
      (j ≡ 0)
      × (pos ≡ q.writer_pos)
      × (get_elem? q.log pos ≡ some v)
      × Agree k (q.buffer (pos % size)) v
  At q j (enqueue_store pos) =
      (j ≡ 0) × (pos ≡ q.writer_pos) × Copied q pos units (q.buffer (pos % size))
  At q j (enqueued b) = Unit
  At q j consumer_load = 0 < j
  At q j (consumer pos r) = (0 < j) × (pos ≤ q.writer_pos)
  At q j (dequeue_load pos into) = (0 < j) × (pos ≤ q.writer_pos)
  At q j (dequeue_read pos into k) =
      (0 < j) × (pos < q.writer_pos) × (length q.log ≤ pos + size → Copied q pos k into)

  -- The buffer holds the last messages, less the one whose cell the writer has begun with.
  abbrev pub Newest : Queue A → Type 0
  Newest q =
      (p : ℕ) → p < q.writer_pos → length q.log ≤ p + size → Copied q p units (q.buffer (p % size))

  -- What one move of thread `i` leaves.
  pub record Moved (i : ℕ) (q : Queue A) (p : Place A) (q' : Queue A) (p' : Place A) : Type 0 where
    pub newest : Newest q'
    pub own : At q' i p'
    pub others : (j : ℕ) (r : Place A) → i ≢ j → At q j r → At q' j r
    pub below : q.writer_pos ≤ q'.writer_pos
    pub small : length q'.log ≤ length q.log + 1
    pub counted :
        (i ≡ 0 → length q'.log ≡ q'.writer_pos + ahead p')
        × (0 < i → (q'.writer_pos ≡ q.writer_pos) × (length q'.log ≡ length q.log))

  -- What the others know of the log and of the position stays when these grow.
  grown :
      (q q' : Queue A)
      → q.writer_pos ≤ q'.writer_pos
      → length q.log ≤ length q'.log
      → ((p : ℕ) → p < q.writer_pos → get_elem? q'.log p ≡ get_elem? q.log p)
      → (j : ℕ) (r : Place A) → 0 ≢ j
      → At q j r
      → At q' j r
  grown q q' w l g j outside ne a = a
  grown q q' w l g j (enqueue_load v) ne a = a
  grown q q' w l g j (enqueue_write v pos k) ne a = absurd (ne (sym a.0))
  grown q q' w l g j (enqueue_store pos) ne a = absurd (ne (sym a.0))
  grown q q' w l g j (enqueued b) ne a = a
  grown q q' w l g j consumer_load ne a = a
  grown q q' w l g j (consumer pos r) ne a = omega (arith, a, w)
  grown q q' w l g j (dequeue_load pos into) ne a = omega (arith, a, w)
  grown q q' w l g j (dequeue_read pos into k) ne (mine, lt, copied) = (
    mine,
    omega (arith, lt, w),
    λ near m e. copied (omega (arith, near, l)) m (sym (g pos lt) ∙ e),
  )

  module _ (blank : Message A) (q : Queue A) (newest : Newest q)
      (bound : length q.log + 1 < 2 ^ 62) where
    -- A move that leaves the queue.
    quiet :
        (i : ℕ) (p p' : Place A)
        → At q i p'
        → (i ≡ 0 → length q.log ≡ q.writer_pos + ahead p')
        → Moved i q p q p'
    quiet i p p' at counted = record {
      newest = newest;
      own = at;
      others = λ j r ne a. a;
      below = omega arith;
      small = omega arith;
      counted = (counted, λ pos. (refl, refl));
    }

    load-Moved :
        (v : Message A)
        → length q.log ≡ q.writer_pos
        → Moved 0 q
            (enqueue_load v)
            (record q { log = q.log ++ v ∷ [] })
            (enqueue_write v q.writer_pos 0)
    load-Moved v counted = record {
      newest = λ p lt near m e.
          newest p lt (omega (arith, near, length-append q.log (v ∷ []))) m
            (sym (get_elem?-append_left q.log (v ∷ []) p (omega (arith, lt, counted))) ∙ e);
      own = (
        refl,
        refl,
        subst (λ k. get_elem? (q.log ++ v ∷ []) k ≡ some v) counted
            (get_elem?-append_length q.log v),
        λ u lt. absurd (omega (arith, lt)),
      );
      others =
          grown q (record q { log = q.log ++ v ∷ [] }) (omega arith)
            (omega (arith, length-append q.log (v ∷ [])))
            (λ p lt. get_elem?-append_left q.log (v ∷ []) p (omega (arith, lt, counted)));
      below = omega arith;
      small = omega (arith, length-append q.log (v ∷ []));
      counted = (
        λ z. omega (arith, length-append q.log (v ∷ []), counted),
        λ pos. absurd (omega (arith, pos)),
      );
    }

    -- The queue with one more unit of the message.
    abbrev wrote : Message A → ℕ → ℕ → Queue A
    wrote v pos k = record q {
      buffer = update q.buffer (pos % size) (update (q.buffer (pos % size)) k (v k));
    }

    write-Moved :
        (v : Message A) (pos k : ℕ)
        → At q 0 (enqueue_write v pos k)
        → length q.log ≡ q.writer_pos + 1
        → Moved 0 q (enqueue_write v pos k) (wrote v pos k) (enqueue_write v pos (k + 1))
    write-Moved v pos k (z, e, is, agree) counted = record {
      newest = λ p lt near m here u small. ground (
        arith,
        newest p lt near m here u small,
        slots_apart size p pos (omega (arith, lt, e)) (omega (arith, near, counted, e))
            (omega (arith, lt, e)),
      );
      own = (refl, e, is, λ u small. ground (arith, agree u, small));
      others = grown q (wrote v pos k) (omega arith) (omega arith) (λ p lt. refl);
      below = omega arith;
      small = omega arith;
      counted = (λ z. counted, λ pos. absurd (omega (arith, pos)));
    }

    store-Moved :
        Copied q q.writer_pos units (q.buffer (q.writer_pos % size))
        → length q.log ≡ q.writer_pos + 1
        → Moved 0 q
            (enqueue_store q.writer_pos)
            (record q { writer_pos = q.writer_pos + 1 })
            (enqueued true)
    store-Moved whole counted = record {
      newest = λ p lt near. elim (ℕ_discrete p q.writer_pos) [
        | yes last ↦ subst (λ x. Copied q x units (q.buffer (x % size))) (sym last) whole
        | no ne ↦ newest p (omega (arith, lt, ne)) near
      ];
      own = tt;
      others =
          grown q (record q { writer_pos = q.writer_pos + 1 }) (omega arith) (omega arith)
            (λ p lt. refl);
      below = omega arith;
      small = omega arith;
      counted = (λ z. omega (arith, counted), λ pos. absurd (omega (arith, pos)));
    }

    -- A call of a thread that is in none.
    begin :
        (c : Call A) (i : ℕ) (p : Place A)
        → At q i p
        → (i ≡ 0 → length q.log ≡ q.writer_pos)
        → ahead p ≡ 0
        → Moved i q p q (enter size units (permit blank i c) p)
    unfolding enter
    begin (try_enqueue v) zero p at counted none_ahead =
        quiet 0 p (enqueue_load v) refl (λ z. omega (arith, counted z))
    begin create_consumer zero p at counted none_ahead =
        quiet 0 p (enqueue_load blank) refl (λ z. omega (arith, counted z))
    begin (try_dequeue into) zero p at counted none_ahead =
        quiet 0 p (enqueue_load blank) refl (λ z. omega (arith, counted z))
    begin create_consumer (suc i) p at counted none_ahead =
        quiet (suc i) p consumer_load (omega arith) (λ z. absurd (omega (arith, z)))
    begin (try_enqueue v) (suc i) (consumer pos r) at counted none_ahead =
        quiet (suc i) (consumer pos r) (dequeue_load pos v) (omega arith, at.1)
          (λ z. absurd (omega (arith, z)))
    begin (try_dequeue v) (suc i) (consumer pos r) at counted none_ahead =
        quiet (suc i) (consumer pos r) (dequeue_load pos v) (omega arith, at.1)
          (λ z. absurd (omega (arith, z)))
    begin (try_enqueue v) (suc i) p at counted none_ahead =
        quiet (suc i) p consumer_load (omega arith) (λ z. absurd (omega (arith, z)))
    begin (try_dequeue v) (suc i) p at counted none_ahead =
        quiet (suc i) p consumer_load (omega arith) (λ z. absurd (omega (arith, z)))

    -- The writer's place is that of thread 0.
    of_writer :
        (c : Call A) (i : ℕ) (p : Place A)
        → i ≡ 0
        → Moved 0 q p (one_writer blank c 0 q p).0 (one_writer blank c 0 q p).1
        → Moved i q p (one_writer blank c i q p).0 (one_writer blank c i q p).1
    of_writer c i p z m =
        subst (λ k. Moved k q p (one_writer blank c k q p).0 (one_writer blank c k q p).1) (sym z) m

    read-Copied :
        (pos k : ℕ) (into : Message A)
        → pos < q.writer_pos
        → k < units
        → (length q.log ≤ pos + size → Copied q pos k into)
        → length q.log ≤ pos + size
        → Copied q pos (k + 1) (update into k (q.buffer (pos % size) k))
    read-Copied pos k into lt more copied near m e u small =
        ground (arith, copied near m e u, newest pos lt near m e k more, small)

    pub move-Moved :
        (c : Call A) (i : ℕ) (p : Place A)
        → At q i p
        → (i ≡ 0 → length q.log ≡ q.writer_pos + ahead p)
        → q.writer_pos ≤ length q.log
        → Moved i q p (one_writer blank c i q p).0 (one_writer blank c i q p).1
    unfolding move
    move-Moved c i outside at is le = begin c i outside at (λ z. omega (arith, is z)) refl
    move-Moved c i (enqueued b) at is le = begin c i (enqueued b) at (λ z. omega (arith, is z)) refl
    move-Moved c i (consumer pos r) at is le =
        begin c i (consumer pos r) at (λ z. omega (arith, is z)) refl
    move-Moved c i (enqueue_load v) at is le =
        of_writer c i (enqueue_load v) at (load-Moved v (omega (arith, is at)))
    move-Moved c i (enqueue_write v pos k) (z, e, here, agree) is le =
        of_writer c i (enqueue_write v pos k) z (elim (Bool-cases (ltb k units)) [
          | inl more ↦ rw more (write-Moved v pos k (refl, e, here, agree) (omega (arith, is z)))
          | inr done ↦ rw done (
              quiet 0 (enqueue_write v pos k) (enqueue_store pos)
                (refl, e, λ m there u small. ground (arith, here, there, agree u, small, done))
                (λ _. omega (arith, is z)))
        ])
    move-Moved c i (enqueue_store pos) (z, e, whole) is le = of_writer c i (enqueue_store pos) z (
        subst
          (λ x.
            Moved 0 q (enqueue_store x) (one_writer blank c 0 q (enqueue_store x)).0
              (enqueued true))
          (sym e)
          (rw (mod-eq_of_lt {n = q.writer_pos + 1} {m = 2 ^ 64} (omega (arith, bound, le))) (
            store-Moved (subst (λ x. Copied q x units (q.buffer (x % size))) e whole)
              (omega (arith, is z)))))
    move-Moved c i consumer_load at is le =
        quiet i consumer_load (consumer q.writer_pos none) (at, omega arith) is
    move-Moved c i (dequeue_load pos into) (mine, at) is le =
        elim (Bool-cases (q.writer_pos == pos)) [
          | inl same ↦ rw same (quiet i (dequeue_load pos into) (consumer pos none) (mine, at) is)
          | inr more ↦ rw more (
              quiet i (dequeue_load pos into) (dequeue_read pos into 0)
                (mine, ground (arith, more, at), λ near m e u lt. absurd (omega (arith, lt))) is)
        ]
    move-Moved c i (dequeue_read pos into k) (mine, at, copied) is le =
        elim (Bool-cases (ltb k units)) [
          | inl more ↦ rw more (
              quiet i (dequeue_read pos into k)
                (dequeue_read pos (update into k (q.buffer (pos % size) k)) (k + 1))
                (mine, at, read-Copied pos k into at (ground (arith, more)) copied) is)
          | inr done ↦ rw done (
              rw (mod-eq_of_lt {n = pos + 1} {m = 2 ^ 64} (omega (arith, bound, at, le))) (
                quiet i (dequeue_read pos into k) (consumer (pos + 1) (some into))
                  (mine, omega (arith, at)) is))
        ]
