-- ===== src/Sync/SeqLock/Keeps.antt =====
-- Each move keeps the invariant of `seq_lock`.
use hope_threading.Prelude.{
  ℕ, ◌+◌, ◌*◌, ◌^◌, ◌≤◌, ◌<◌, ◌≡◌, refl, sym, ◌∙◌, subst, ◌≢◌, ◌⊎◌, inl, inr, if_pos, if_neg, arith,
  ℕ_discrete,
}
use hope_threading.Threads.{update, System, Reach, moves, Reach-keeps_counted}
use hope_threading.Sync.SeqLock.{Value, Memory, Place, Call, move, idle, store_copy}
use hope_threading.Sync.SeqLock.Invariant.{
  one_writer_move, AtWriter, AtReader, OnlyLoads, Change, same, store-AtWriter, load-OnlyLoads,
  own-AtReader, AtReader-Change,
}

-- After `k` moves.
pub record Inv (size w n k : ℕ) (m : Memory) (pc : ℕ → Place) : Type 0 where
  pub small : m.seq ≤ 2 * k
  pub writer : AtWriter size m (pc w)
  pub readers : (i : ℕ) → i < n → AtReader size m (pc i)
  pub others : (i : ℕ) → i < n → i ≢ w → OnlyLoads (pc i)

module _ (size w : ℕ) where
  move-small :
      (k : ℕ) (c : Call) (i : ℕ) (m : Memory) (p : Place)
      → m.seq ≤ 2 * k
      → AtWriter size m p ⊎ OnlyLoads p
      → (one_writer_move size w c i m p).0.seq ≤ 2 * (k + 1)
  unfolding move
  move-small k c i m (store_copy v seq j) small at = ground arith
  move-small k c i m p small at = ground arith

  module _ (n k i : ℕ) (c : Call) (m : Memory) (pc : ℕ → Place) (lt : i < n) (lim : k + 1 < 2 ^ 62)
      (v : Inv size w n k m pc) where
    abbrev m' : Memory
    m' = (one_writer_move size w c i m (pc i)).0

    abbrev p' : Place
    p' = (one_writer_move size w c i m (pc i)).1

    -- What the mover's move does, for the writer and for another thread.
    mover : ((i ≡ w) × AtWriter size m' p' × Change m m') ⊎ ((i ≢ w) × OnlyLoads p' × (m' ≡ m))
    mover = elim (ℕ_discrete i w) [
      | yes e ↦
          let both =
            store-AtWriter size w c i m (pc i) (omega (arith, v.small))
              (subst (λ j. AtWriter size m (pc j)) (sym e) v.writer) in
          inl (e, both.0, both.1)
      | no ne ↦
          let both = load-OnlyLoads size w c i m (pc i) ne (v.others i lt ne) in
          inr (ne, both.0, both.1)
    ]

    change : Change m m'
    change = elim mover [
      | inl (e, at, ch) ↦ ch
      | inr (ne, loads, e) ↦ subst (Change m) (sym e) same
    ]

    own : AtWriter size m (pc i) ⊎ OnlyLoads (pc i)
    own = elim (ℕ_discrete i w) [
      | yes e ↦ inl (subst (λ j. AtWriter size m (pc j)) (sym e) v.writer)
      | no ne ↦ inr (v.others i lt ne)
    ]

    -- Each field after the move.
    writer' : AtWriter size m' (update pc i p' w)
    writer' = elim mover [
      | inl (e, at, ch) ↦ rw (if_pos (ℕ_discrete i w) e) at
      | inr (ne, loads, e) ↦
          rw (if_neg (ℕ_discrete i w) ne) (subst (λ x. AtWriter size x (pc w)) (sym e) v.writer)
    ]

    readers' : (j : ℕ) → j < n → AtReader size m' (update pc i p' j)
    readers' j hj = elim (ℕ_discrete i j) [
      | yes e ↦ rw (if_pos (ℕ_discrete i j) e) (own-AtReader size w c i m (pc i) (v.readers i lt))
      | no ne ↦
          rw (if_neg (ℕ_discrete i j) ne) (AtReader-Change size (pc j) change (v.readers j hj))
    ]

    others' : (j : ℕ) → j < n → j ≢ w → OnlyLoads (update pc i p' j)
    others' j hj away = elim (ℕ_discrete i j) [
      | yes e ↦
          let ne : i ≢ w = λ here. away (sym e ∙ here) in
          rw (if_pos (ℕ_discrete i j) e)
            (load-OnlyLoads size w c i m (pc i) ne (v.others i lt ne)).0
      | no ne ↦ rw (if_neg (ℕ_discrete i j) ne) (v.others j hj away)
    ]

    move-Inv : Inv size w n (k + 1) m' (update pc i p')
    move-Inv = record {
      small = move-small k c i m (pc i) v.small own;
      writer = writer';
      readers = readers';
      others = others';
    }

-- The lock with the sequence number 0 and any value, and no thread in a call.
abbrev pub initial : Value → System Memory Place
initial v = record { mem = record { seq = 0; val = v }; pc = λ _. idle }

pub Reach-Inv :
    {size w n : ℕ} {v : Value} {s : System Memory Place}
    → (r : Reach (one_writer_move size w) n (initial v) s)
    → moves (one_writer_move size w) r < 2 ^ 62
    → Inv size w n (moves (one_writer_move size w) r) s.mem s.pc
Reach-Inv {size} {w} {n} {v} r few =
    Reach-keeps_counted (one_writer_move size w) n (λ k m pc. k < 2 ^ 62 → Inv size w n k m pc)
      (λ k i c m pc lt before lim. move-Inv size w n k i c m pc lt lim (before (omega arith)))
      (λ _. record {
        small = omega arith;
        writer = refl;
        readers = λ i hi. tt;
        others = λ i hi ne. tt;
      })
      r few
