-- ===== src/Queue/MpmcBounded/Moved.antt =====
-- What one move of `mpmc_bounded_queue` does to its invariant, place by place.
use hope_threading.Prelude.{
  ℕ, ◌+◌, ◌%◌, ◌^◌, ◌≤◌, ◌<◌, refl, subst, inl, inr, arith, ◌==◌, ==_iff, Bool-cases,
}
use native.Mathlib.Nat.{mod-lt}
use hope_threading.Queue.MpmcBounded.{
  look_enqueue, look_dequeue, exchange_enqueue, exchange_dequeue, Queue, Place, Call, idle,
  enqueue_load, enqueue_look, enqueue_exchange, enqueue_write, enqueue_publish, dequeue_load,
  dequeue_look, dequeue_exchange, dequeue_read, dequeue_publish, try_enqueue, try_dequeue, wrap,
  difference, negative, move,
}
use hope_threading.Queue.MpmcBounded.Invariant.{cell, At, Shape}
use hope_threading.Queue.MpmcBounded.Accesses.{
  Moved, still, won_in, won_out, wrote, filled, emptied,
}

module _ {A : Type 0} (size : ℕ) (two : 2 ≤ size) (q : Queue A) (shape : Shape size q) where
  module _ (bound : q.enqueue_pos + 1 < 2 ^ 62) (cells : size ≤ 2 ^ 62) where
    looked_in :
        (v : A) (pos : ℕ)
        → pos ≤ q.enqueue_pos
        → cell size q pos < 2 ^ 64
        → Moved size q
            (enqueue_look v pos)
            q
            (look_enqueue v pos (difference (cell size q pos) pos))
    unfolding look_enqueue
    looked_in v pos at small = elim (Bool-cases (difference (cell size q pos) pos == 0)) [
      | inl here ↦ rw here (still size two q shape (at, λ _. ground arith) refl (inl refl))
      | inr other ↦ rw other (elim (Bool-cases (negative (difference (cell size q pos) pos))) [
        | inl before ↦ rw before (still size two q shape tt refl (inl refl))
        | inr behind ↦ rw behind (still size two q shape tt refl (inl refl))
      ])
    ]

    looked_out :
        (pos : ℕ)
        → pos ≤ q.dequeue_pos
        → cell size q pos < 2 ^ 64
        → Moved size q
            (dequeue_look pos)
            q
            (look_dequeue pos (difference (cell size q pos) (wrap (pos + 1))))
    unfolding look_dequeue
    looked_out pos at small =
        elim (Bool-cases (difference (cell size q pos) (wrap (pos + 1)) == 0)) [
          | inl here ↦
              rw here (still size two q shape (at, λ _. ground (arith, shape)) refl (inl refl))
          | inr other ↦
              rw other
                (elim (Bool-cases (negative (difference (cell size q pos) (wrap (pos + 1))))) [
                  | inl before ↦ rw before (still size two q shape tt refl (inl refl))
                  | inr behind ↦ rw behind (still size two q shape tt refl (inl refl))
                ])
        ]

    exchanged_in :
        (v : A) (pos : ℕ)
        → At size q (enqueue_exchange v pos)
        → Moved size q
            (enqueue_exchange v pos)
            (exchange_enqueue q v pos).0
            (exchange_enqueue q v pos).1
    unfolding exchange_enqueue
    exchanged_in v pos at = elim (Bool-cases (q.enqueue_pos == pos)) [
      | inl hit ↦
          subst
            (λ x.
              Moved size q (enqueue_exchange v x) (exchange_enqueue q v x).0
                (exchange_enqueue q v x).1)
            ((==_iff q.enqueue_pos pos).0 hit)
            (rw ((==_iff q.enqueue_pos q.enqueue_pos).1 refl)
              (won_in size two q shape bound cells v (ground arith)))
      | inr miss ↦ rw miss (still size two q shape (omega arith) refl (inl refl))
    ]

    exchanged_out :
        (pos : ℕ)
        → At size q (dequeue_exchange pos)
        → Moved size q (dequeue_exchange pos) (exchange_dequeue q pos).0 (exchange_dequeue q pos).1
    unfolding exchange_dequeue
    exchanged_out pos at = elim (Bool-cases (q.dequeue_pos == pos)) [
      | inl hit ↦
          subst
            (λ x.
              Moved size q (dequeue_exchange x) (exchange_dequeue q x).0 (exchange_dequeue q x).1)
            ((==_iff q.dequeue_pos pos).0 hit)
            (rw ((==_iff q.dequeue_pos q.dequeue_pos).1 refl)
              (won_out size two q shape bound cells (ground arith)))
      | inr miss ↦ rw miss (still size two q shape (omega arith) refl (inl refl))
    ]

    -- Every place.
    pub move-Moved :
        (c : Call A) (i : ℕ) (p : Place A)
        → ((k : ℕ) → k < size → q.sequence k < 2 ^ 64)
        → At size q p
        → Moved size q p (move size c i q p).0 (move size c i q p).1
    unfolding move
    move-Moved (try_enqueue v) i (idle r) low at = still size two q shape tt refl (inl refl)
    move-Moved try_dequeue i (idle r) low at = still size two q shape tt refl (inl refl)
    move-Moved c i (enqueue_load v) low at = still size two q shape (omega arith) refl (inl refl)
    move-Moved c i (enqueue_look v pos) low at =
        looked_in v pos at (low (pos % size) (mod-lt pos {m = size} (omega arith)))
    move-Moved c i (enqueue_exchange v pos) low at = exchanged_in v pos at
    move-Moved c i (enqueue_write v pos) low at = wrote size two q shape bound cells v pos at
    move-Moved c i (enqueue_publish pos) low at = filled size two q shape bound cells pos at
    move-Moved c i dequeue_load low at = still size two q shape (omega arith) refl (inl refl)
    move-Moved c i (dequeue_look pos) low at =
        looked_out pos at (low (pos % size) (mod-lt pos {m = size} (omega arith)))
    move-Moved c i (dequeue_exchange pos) low at = exchanged_out pos at
    move-Moved c i (dequeue_read pos) low at = still size two q shape at refl (inr refl)
    move-Moved c i (dequeue_publish v pos) low at = emptied size two q shape bound cells v pos at
