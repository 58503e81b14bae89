-- ===== src/Queue/MpmcBounded/Refusal.antt =====
-- When `try_enqueue` of `mpmc_bounded_queue` refuses.
use native.Mathlib.Nat.{mod-lt, mod-add-mod, mod-eq_of_lt, add-mod-mod, add-mod_right}
use hope_threading.Prelude.{
  ℕ, ◌+◌, ◌-◌, ◌%◌, ◌^◌, ◌≤◌, ◌<◌, ◌≡◌, sym, ap, ◌∙◌, subst, ◌⊎◌, false, arith, dec_lt,
}
use hope_threading.Threads.{System, Reach, moves, turn}
use hope_threading.Queue.Slots.{slot-ne}
use hope_threading.Queue.MpmcBounded.{
  Queue, Place, Call, idle, enqueued, enqueue_look, move, look_enqueue, difference,
}
use hope_threading.Queue.MpmcBounded.Invariant.{cell, At, Shape}
use hope_threading.Queue.MpmcBounded.Keeps.{Inv, initial, Reach-Inv}

-- The position that uses a cell in the round that begins at `from`.
in_round : ℕ → ℕ → ℕ → ℕ
in_round size from pos = from + (pos % size + size - from % size) % size

in_round_lt : (size from pos : ℕ) → 0 < size → in_round size from pos < from + size
unfolding in_round
in_round_lt size from pos h = omega (arith, mod-lt (pos % size + size - from % size) {m = size} h)

in_round_ge : (size from pos : ℕ) → from ≤ in_round size from pos
unfolding in_round
in_round_ge size from pos = omega arith

in_round_cell : (size from pos : ℕ) → 0 < size → in_round size from pos % size ≡ pos % size
unfolding in_round
in_round_cell size from pos h =
    add-mod-mod from (pos % size + size - from % size) size
    ∙ sym (mod-add-mod from size (pos % size + size - from % size))
    ∙ ap (λ k. k % size) {x = from % size + (pos % size + size - from % size)}
        {y = pos % size + size} (omega (arith, mod-lt from {m = size} h))
    ∙ add-mod_right (pos % size) size
    ∙ mod-eq_of_lt (mod-lt pos {m = size} h)

module _ {A : Type 0} (size : ℕ) (two : 2 ≤ size) (cells : size ≤ 2 ^ 62) (q : Queue A)
    (shape : Shape size q) (small : q.enqueue_pos < 2 ^ 62) where
  -- The cell of a position that has been dequeued is ahead of it.
  cell_past : (pos : ℕ) → pos < q.dequeue_pos → (pos < cell size q pos) × (cell size q pos < 2 ^ 63)
  cell_past pos lt =
      ground (arith, same, far, shape.full t, shape.free t, above, below, shape.order)
    where
      t : ℕ
      t = in_round size q.dequeue_pos pos

      above : q.dequeue_pos ≤ t
      above = in_round_ge size q.dequeue_pos pos

      below : t < q.dequeue_pos + size
      below = in_round_lt size q.dequeue_pos pos (omega arith)

      same : cell size q t ≡ cell size q pos
      same = ap q.sequence (in_round_cell size q.dequeue_pos pos (omega arith))

      far : pos + size ≤ t
      far = elim (dec_lt t (pos + size)) [
        | yes near ↦ absurd (
            slot-ne size pos t (omega (arith, above)) near
              (sym (in_round_cell size q.dequeue_pos pos (omega arith))))
        | no ge ↦ omega arith
      ]

  -- The branch of `dif < 0`.
  refused_look :
      (v : A) (pos : ℕ)
      → pos ≤ q.enqueue_pos
      → cell size q pos < 2 ^ 64
      → look_enqueue v pos (difference (cell size q pos) pos) ≡ idle (enqueued false)
      → (pos ≡ q.enqueue_pos)
        × ((q.enqueue_pos ≡ q.dequeue_pos + size) ⊎ (cell size q pos + size ≡ pos + 1))
  unfolding look_enqueue
  refused_look v pos at low e = elim (dec_lt pos q.dequeue_pos) [
    | yes past ↦ absurd (ground (arith, cell_past pos past))
    | no ge ↦ ground (arith, shape.full pos, shape.free pos, shape.room)
  ]

  full_look :
      (v : A)
      → q.enqueue_pos ≡ q.dequeue_pos + size
      → look_enqueue v q.enqueue_pos (difference (cell size q q.enqueue_pos) q.enqueue_pos)
        ≡ idle (enqueued false)
  unfolding look_enqueue
  full_look v e = ground (arith, shape.full q.dequeue_pos, same)
    where
      same : cell size q q.enqueue_pos ≡ cell size q q.dequeue_pos
      same = ap q.sequence (ap (λ k. k % size) e ∙ add-mod_right q.dequeue_pos size)

module _ {A : Type 0} {size n : ℕ} (blank : A) {s : System (Queue A) (Place A)} (two : 2 ≤ size)
    (cells : size ≤ 2 ^ 62) (r : Reach (move size) n (initial blank) s)
    (few : moves (move size) r < 2 ^ 62) where
  inv : Inv size n (moves (move size) r) s.mem s.pc
  inv = Reach-Inv blank two cells r few

  -- `try_enqueue` refuses only when it must: with a size from 2 to 2 ^ 62 and after fewer than 2
  -- ^ 62 moves, it refuses only at a position that is still the next one, and then the queue
  -- holds `size` items, or the cell is still taken by the `try_dequeue` of the round before.
  pub refused_when_full :
      (i pos : ℕ) (x : A) (c : Call A)
      → i < n
      → s.pc i ≡ enqueue_look x pos
      → (turn (move size) i c s).pc i ≡ idle (enqueued false)
      → (pos ≡ s.mem.enqueue_pos)
        × ((s.mem.enqueue_pos ≡ s.mem.dequeue_pos + size) ⊎ (cell size s.mem pos + size ≡ pos + 1))
  unfolding move
  refused_when_full i pos x c hi here refused =
      refused_look size two cells s.mem inv.shape (omega (arith, inv.few)) x pos
        (subst (At size s.mem) here (inv.places i hi))
        (inv.low (pos % size) (mod-lt pos {m = size} (omega arith))) (ground arith)

  -- A full queue refuses: with a size from 2 to 2 ^ 62 and after fewer than 2 ^ 62 moves, a
  -- `try_enqueue` that looks at the next position while the queue holds `size` items returns
  -- false.
  pub full_refuses :
      (i : ℕ) (x : A) (c : Call A)
      → s.pc i ≡ enqueue_look x s.mem.enqueue_pos
      → s.mem.enqueue_pos ≡ s.mem.dequeue_pos + size
      → (turn (move size) i c s).pc i ≡ idle (enqueued false)
  unfolding move
  full_refuses i x c here is_full =
      ground (arith, full_look size two cells s.mem inv.shape (omega (arith, inv.few)) x is_full)
