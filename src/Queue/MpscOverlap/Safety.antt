-- ===== src/Queue/MpscOverlap/Safety.antt =====
-- What `mpsc_bounded_queue` promises in each reachable state.
use hope_threading.Prelude.{
  ℕ, ◌+◌, ◌-◌, ◌%◌, ◌^◌, ◌≤◌, ◌<◌, ◌≡◌, refl, subst, ◌≢◌, ◌⊎◌, inl, inr, some, true, false, arith,
  length, get_elem?, Bool-cases, ◌↔◌, ltb, if◌then◌else◌,
}
use hope_threading.Threads.{System, Reach, moves}
use hope_threading.Queue.Slots.{slots_apart}
use hope_threading.Queue.MpscOverlap.{
  Queue, Place, Call, enqueue_test, enqueue_exchange, enqueue_write, dequeue_read, dequeue_clear,
  dequeue_move, idle, enqueued, move,
}
use hope_threading.Queue.MpscOverlap.Invariant.{sole_move, At}
use hope_threading.Queue.MpscOverlap.Reached.{Inv, initial, Reach-Inv, Reach-Placed}
use hope_threading.Queue.MpscOverlap.Bounds.{Placed, Where}

-- The difference of the positions in a word.
refusal :
    {A : Type 0} (size pos tail : ℕ) (x : A)
    → size ≤ 2 ^ 62
    → pos < 2 ^ 62
    → tail < 2 ^ 62
    → pos ≤ tail + size + 1
    → ((if ltb size ((pos + 2 ^ 64 - tail) % 2 ^ 64)
          then idle (enqueued false)
          else enqueue_exchange x pos)
        ≡ idle (enqueued false))
      ↔ ((pos < tail) ⊎ (pos ≡ tail + size + 1))
refusal size pos tail x cells a b c =
    elim (Bool-cases (ltb size ((pos + 2 ^ 64 - tail) % 2 ^ 64))) [
      | inl over ↦ rw over (λ _. ground (arith, over, a, b, c, cells), λ _. refl)
      | inr fits ↦
          rw fits (
            λ e. absurd (ground (arith, e)),
            λ lt. absurd (ground (arith, fits, lt, a, b, c, cells)),
          )
    ]

module _ {A : Type 0} (size : ℕ) {n : ℕ} (blank : A) {s : System (Queue A) (Place A)}
    (r : Reach (sole_move size blank) n (initial blank) s)
    (few : moves (sole_move size blank) r < 2 ^ 62) (cells : size ≤ 2 ^ 62) where
  bounds : Placed size (moves (sole_move size blank) r) s.mem s.pc
  bounds = Reach-Placed blank cells r few

  kept : s.mem.overfilled ≡ false → Inv size (moves (sole_move size blank) r) s.mem s.pc
  kept = Reach-Inv blank r few

  -- First in, first out: where only thread 0 takes, fewer than 2 ^ 62 moves are made and `size` is at
  -- most 2 ^ 62, once a thread has read its value in `try_dequeue`, the tail is a position that a
  -- producer has taken, and the head, which is the number of the items entered, is at most `size + 1`
  -- ahead of it. The value is the one that was entered at the tail, unless an exchange has succeeded
  -- with `size` or more items in the queue.
  pub taken_in_order :
      (i : ℕ) (x : A)
      → (s.pc i ≡ dequeue_clear x) ⊎ (s.pc i ≡ dequeue_move x)
      → (s.mem.tail < s.mem.head)
        × (s.mem.head ≤ s.mem.tail + size + 1)
        × (length s.mem.entered ≡ s.mem.head)
        × ((get_elem? s.mem.entered s.mem.tail ≡ some x) ⊎ (s.mem.overfilled ≡ true))
  taken_in_order i x here = (some_in here, bounds.within.room, bounds.within.counted, value here)
    where
      some_in : (s.pc i ≡ dequeue_clear x) ⊎ (s.pc i ≡ dequeue_move x) → s.mem.tail < s.mem.head
      some_in (inl clear) = (subst (Where size s.mem i) clear (bounds.places i)).1
      some_in (inr gone) = (subst (Where size s.mem i) gone (bounds.places i)).1

      value :
          (s.pc i ≡ dequeue_clear x) ⊎ (s.pc i ≡ dequeue_move x)
          → (get_elem? s.mem.entered s.mem.tail ≡ some x) ⊎ (s.mem.overfilled ≡ true)
      value at = elim (Bool-cases s.mem.overfilled) [
        | inl over ↦ inr over
        | inr fits ↦ inl (kept_value (kept fits) at)
      ]
        where
          kept_value :
              Inv size (moves (sole_move size blank) r) s.mem s.pc
              → (s.pc i ≡ dequeue_clear x) ⊎ (s.pc i ≡ dequeue_move x)
              → get_elem? s.mem.entered s.mem.tail ≡ some x
          kept_value v (inl clear) = (subst (At size s.mem v.low i) clear (v.places i)).3
          kept_value v (inr gone) = (subst (At size s.mem v.low i) gone (v.places i)).3

  -- No two threads touch one value at a time: where only thread 0 takes, fewer than 2 ^ 62 moves are
  -- made and `size` is at most 2 ^ 62, a thread that is about to write a value does so at most `size`
  -- positions past the tail, and its cell is another than that of each other thread that is about to
  -- write or to read a value, unless an exchange has succeeded with `size` or more items in the queue.
  pub cells_apart :
      (i j a b : ℕ) (x y : A)
      → i ≢ j
      → s.pc i ≡ enqueue_write x a
      → (s.pc j ≡ enqueue_write y b) ⊎ ((s.pc j ≡ dequeue_read) × (b ≡ s.mem.tail))
      → (a ≤ s.mem.tail + size) × ((a % size ≢ b % size) ⊎ (s.mem.overfilled ≡ true))
  cells_apart i j a b x y ne here there = (
    omega (arith, bounds.within.room, at.1),
    elim (Bool-cases s.mem.overfilled) [ inl over ↦ inr over | inr fits ↦ inl (apart (kept fits)) ],
  )
    where
      at : Where size s.mem i (enqueue_write x a)
      at = subst (Where size s.mem i) here (bounds.places i)

      apart : Inv size (moves (sole_move size blank) r) s.mem s.pc → a % size ≢ b % size
      apart v =
          slots_apart size a b (λ e. ground (arith, e, v.places i, v.places j, v.unique i j a))
            (ground (arith, v.places i, v.places j, v.shape))
            (ground (arith, v.places i, v.places j, v.shape))

  -- When a producer is refused: where only thread 0 takes, fewer than 2 ^ 62 moves are made and `size`
  -- is at most 2 ^ 62, the test of `try_enqueue` refuses exactly if the consumer has passed the head
  -- that the call has loaded, or this head is `size + 1` ahead of the tail.
  pub refused_iff :
      (i pos : ℕ) (x : A) (c : Call A)
      → s.pc i ≡ enqueue_test x pos
      → ((move size c i s.mem (s.pc i)).1 ≡ idle (enqueued false))
        ↔ ((pos < s.mem.tail) ⊎ (pos ≡ s.mem.tail + size + 1))
  unfolding move
  refused_iff i pos x c here = rw here (
      refusal size pos s.mem.tail x cells (omega (arith, at.1, bounds.few, few))
        (omega (arith, bounds.within.order, bounds.few, few))
        (omega (arith, at.1, bounds.within.room)))
    where
      at : Where size s.mem i (enqueue_test x pos)
      at = subst (Where size s.mem i) here (bounds.places i)
