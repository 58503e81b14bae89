-- ===== src/Queue/SpmcMessage/Log.antt =====
-- The messages that a `spmc_bounded_message_queue` still holds, against all that were ever written.
use hope_threading.Prelude.{
  ℕ, ◌+◌, ◌%◌, ◌^◌, ◌≤◌, ◌<◌, ◌≡◌, subst, some, List, [], ◌∷◌, ◌++◌, arith, ℕ_discrete, length,
  get_elem?, length-append, get_elem?-append_left, get_elem?-append_length,
}
use hope_threading.Queue.Slots.{slot-ne}
use hope_threading.Queue.SpmcMessage.{Queue, try_enqueue}

module _ {A : Type 0} (size : ℕ) where
  -- The buffer holds the last `size` messages of the log.
  pub record Holds (log : List A) (q : Queue A) : Type 0 where
    pub some_cell : 0 < size
    pub counted : length log ≡ q.writer_pos
    pub small : q.writer_pos + size < 2 ^ 64
    pub recent :
        (p : ℕ)
        → p < q.writer_pos
        → q.writer_pos ≤ p + size
        → get_elem? log p ≡ some (q.buffer (p % size))

  pub try_enqueue-Holds :
      (log : List A) (q : Queue A) (x : A)
      → Holds log q
      → q.writer_pos + 1 + size < 2 ^ 64
      → Holds (log ++ x ∷ []) (try_enqueue size q x).0
  unfolding try_enqueue
  try_enqueue-Holds log q x h lim = record {
    some_cell = h.some_cell;
    counted = omega (arith, length-append log (x ∷ []), h.counted);
    small = omega arith;
    recent = λ p lo hi. elim (ℕ_discrete p q.writer_pos) [
      | yes e ↦ ground (arith, e, last)
      | no ne ↦ ground (
        arith,
        h.recent p,
        slot-ne size p q.writer_pos,
        get_elem?-append_left log (x ∷ []) p,
        h.counted,
      )
    ];
  }
    where
      last : get_elem? (log ++ x ∷ []) q.writer_pos ≡ some x
      last =
          subst (λ k. get_elem? (log ++ x ∷ []) k ≡ some x) h.counted
            (get_elem?-append_length log x)
