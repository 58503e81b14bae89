-- ===== src/Queue/MpmcBounded/Safety.antt =====
-- What `mpmc_bounded_queue` promises in each reachable state.
use hope_threading.Prelude.{
  ℕ, ◌+◌, ◌%◌, ◌^◌, ◌≤◌, ◌<◌, ◌≡◌, ap, subst, ◌≢◌, ◌⊎◌, some, arith, length, get_elem?,
}
use hope_threading.Threads.{System, Reach, moves}
use hope_threading.Queue.Slots.{slots_apart}
use hope_threading.Queue.MpmcBounded.{
  Queue, Place, enqueue_write, dequeue_read, dequeue_publish, move,
}
use hope_threading.Queue.MpmcBounded.Invariant.{At, leaving}
use hope_threading.Queue.MpmcBounded.Keeps.{Inv, initial, Reach-Inv}

module _ {A : Type 0} {size n : ℕ} (blank : A) {s : System (Queue A) (Place A)} (two : 2 ≤ size)
    (cells : size ≤ 2 ^ 62) (r : Reach (move size) n (initial blank) s)
    (few : moves (move size) r < 2 ^ 62) where
  v : Inv size n (moves (move size) r) s.mem s.pc
  v = Reach-Inv blank two cells r few

  -- First in, first out: with a size from 2 to 2 ^ 62 and after fewer than 2 ^ 62 moves, the value
  -- that a `try_dequeue` is about to return is the one that was entered at its position, the position
  -- is one that has been taken, and no other thread has it.
  pub dequeued_in_order :
      (i pos : ℕ) (x : A)
      → i < n
      → s.pc i ≡ dequeue_publish x pos
      → (get_elem? s.mem.entered pos ≡ some x)
        × (pos < s.mem.dequeue_pos)
        × ((j : ℕ) → j < n → leaving (s.pc j) ≡ some pos → i ≡ j)
  dequeued_in_order i pos x hi here =
      (at.1, at.0.0, λ j hj e. v.unique_out i j pos hi hj (ap leaving here) e)
    where
      at : At size s.mem (dequeue_publish x pos)
      at = subst (At size s.mem) here (v.places i hi)

  -- The queue never holds more than `size` items: with a size from 2 to 2 ^ 62 and after fewer
  -- than 2 ^ 62 moves, the position of the next `try_dequeue` is at most that of the next
  -- `try_enqueue`, by at most `size`, and so many items have been entered as the latter says.
  pub bounded :
      (s.mem.dequeue_pos ≤ s.mem.enqueue_pos)
      × (s.mem.enqueue_pos ≤ s.mem.dequeue_pos + size)
      × (length s.mem.entered ≡ s.mem.enqueue_pos)
  bounded = (v.shape.order, v.shape.room, v.shape.counted)

  -- No two threads touch one item at a time: with a size from 2 to 2 ^ 62 and after fewer than 2
  -- ^ 62 moves, two threads of which one is about to write an item and the other about to write
  -- or to read one have different cells.
  pub no_data_race :
      (i j a b : ℕ) (x y : A)
      → i < n
      → j < n
      → i ≢ j
      → s.pc i ≡ enqueue_write x a
      → (s.pc j ≡ enqueue_write y b) ⊎ (s.pc j ≡ dequeue_read b)
      → a % size ≢ b % size
  no_data_race i j a b x y hi hj ne here there =
      slots_apart size a b
        (λ e. ground (arith, e, v.places i hi, v.places j hj, v.unique_in i j a hi hj))
        (ground (arith, v.places i hi, v.places j hj, v.shape))
        (ground (arith, v.places i hi, v.places j hj, v.shape))
