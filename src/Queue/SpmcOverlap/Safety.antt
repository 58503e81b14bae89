-- ===== src/Queue/SpmcOverlap/Safety.antt =====
-- What a consumer of `spmc_bounded_message_queue` gets in each reachable state.
use hope_threading.Prelude.{
  ℕ, ◌+◌, ◌%◌, ◌^◌, ◌≤◌, ◌<◌, ◌≡◌, ◌≢◌, ◌⊎◌, inl, inr, some, arith, length, get_elem?, refl,
  Bool-cases, ltb, List, [], ◌∷◌, zero, suc, dec_lt, subst, if◌then◌else◌,
}
use native.Mathlib.Nat.{mod-eq_of_lt}
use hope_threading.Threads.{update, System, Reach, moves}
use hope_threading.Queue.Slots.{slots_apart}
use hope_threading.Queue.SpmcOverlap.{
  Message, Queue, Place, Call, consumer, dequeue_read, enqueue_write, move,
}
use hope_threading.Queue.SpmcOverlap.Invariant.{one_writer, At, Agree}
use hope_threading.Queue.SpmcOverlap.Reached.{Inv, initial, Reach-Inv}

-- The element at a position of a list.
entry : {B : Type 0} (l : List B) (p : ℕ) → p < length l → (m : B) × (get_elem? l p ≡ some m)
entry [] p lt = absurd (omega (arith, lt))
entry (m ∷ l) zero lt = (m, refl)
entry (m ∷ l) (suc p) lt = entry l p (omega (arith, lt))

module _ {A : Type 0} (size units : ℕ) {n : ℕ} (blank : Message A) {s : System (Queue A) (Place A)}
    (r : Reach (one_writer size units blank) n (initial blank) s)
    (few : moves (one_writer size units blank) r < 2 ^ 62) where
  v : Inv size units (moves (one_writer size units blank) r) s.mem s.pc
  v = Reach-Inv blank r few

  -- A message is read whole, unless the reader is overtaken: where only thread 0 writes and fewer than
  -- 2 ^ 62 moves are made, a `try_dequeue` that has copied every unit returns its copy and goes on to
  -- the next position, the writer has stored a position past the one that is read, and each unit of
  -- the copy is that of the message that was written at this position, unless the writer has begun
  -- with the message `size` positions further.
  pub read_whole :
      (i pos k : ℕ) (into : Message A) (c : Call A)
      → s.pc i ≡ dequeue_read pos into k
      → units ≤ k
      → ((move size units c i s.mem (s.pc i)).1 ≡ consumer (pos + 1) (some into))
        × (pos < s.mem.writer_pos)
        × (((m : Message A) × (get_elem? s.mem.log pos ≡ some m) × Agree size units units into m)
            ⊎ (pos + size < length s.mem.log))
  unfolding move
  read_whole i pos k into c here all = rw here (
    returned,
    at.1,
    elim (dec_lt (pos + size) (length s.mem.log)) [
      | yes past ↦ inr past
      | no near ↦ inl (
          let (m, e) = entry s.mem.log pos (omega (arith, at.1, v.counted)) in
          (m, e, λ u lt. at.2 (omega (arith, near)) m e u (omega (arith, lt, all))))
    ],
  )
    where
      at : At size units s.mem i (dequeue_read pos into k)
      at = subst (At size units s.mem i) here (v.places i)

      returned :
          (if ltb k units
            then dequeue_read pos (update into k (s.mem.buffer (pos % size) k)) (k + 1)
            else consumer ((pos + 1) % 2 ^ 64) (some into))
          ≡ consumer (pos + 1) (some into)
      returned = elim (Bool-cases (ltb k units)) [
        | inl more ↦ absurd (ground (arith, more, all))
        | inr done ↦
            rw
              (
                done,
                mod-eq_of_lt {n = pos + 1} {m = 2 ^ 64}
                    (omega (arith, at.1, v.counted, v.few, few)),
              )
              refl
      ]

  -- When the writer and a consumer touch one message at a time: where only thread 0 writes and fewer
  -- than 2 ^ 62 moves are made, a thread that copies a message into the buffer and a thread that copies
  -- one out of it have different cells, unless the reader is `size` messages behind.
  pub cells_apart-within_ring :
      (i j a b k l : ℕ) (x y : Message A)
      → s.pc i ≡ enqueue_write x a k
      → s.pc j ≡ dequeue_read b y l
      → a < b + size
      → a % size ≢ b % size
  cells_apart-within_ring i j a b k l x y writes reads near =
      slots_apart size a b (omega (arith, at.1, from.1)) near (omega (arith, at.1, from.1, near))
    where
      at : At size units s.mem i (enqueue_write x a k)
      at = subst (At size units s.mem i) writes (v.places i)

      from : At size units s.mem j (dequeue_read b y l)
      from = subst (At size units s.mem j) reads (v.places j)
