-- ===== src/Sync/ContentionFree/Invariant.antt =====
-- The counters of `contention_free_rw_lock` and its flag, for clients of which one thread writes.
use hope_threading.Prelude.{
  refl, subst, sym, ◌∙◌, if_pos, if_neg, inl, if_neg, ◌*◌, inr, ◌==◌, inl, ltb, Bool-cases, ◌≤◌, ℕ,
  ◌+◌, ◌^◌, ◌<◌, ◌≡◌, ◌≢◌, Bool, true, false, ite, ℕ_discrete, arith,
}
use hope_threading.Threads.{
  total-const, Reach-keeps, Reach, System, total-le_bound, total-update, total_mono_two, total,
  Mover,
}
use hope_threading.Sync.ContentionFree.{
  exchange, update, Lock, Place, idle, shared_count, shared_check, shared_undo, shared_wait,
  reading, exclusive_exchange, exclusive_scan, writing, Call, lock_shared, lock_exclusive, move,
}

-- A client of which only thread `w` calls `lock_exclusive`.
abbrev permit : ℕ → ℕ → Call → Call
permit w i (lock_shared k) = lock_shared k
permit w i lock_exclusive = ite (ℕ_discrete i w) lock_exclusive (lock_shared 0)

abbrev pub one_writer_move : ℕ → ℕ → Mover Call Lock Place
one_writer_move slots w c i = move slots (permit w i c) i

-- What a thread has added to the counter of slot `k`.
abbrev pub mark : ℕ → Place → ℕ
mark k (shared_check c) = ite (ℕ_discrete c k) 1 0
mark k (shared_undo c) = ite (ℕ_discrete c k) 1 0
mark k (reading c) = ite (ℕ_discrete c k) 1 0
mark k _ = 0

abbrev pub reads : ℕ → Place → ℕ
reads k (reading c) = ite (ℕ_discrete c k) 1 0
reads k _ = 0

-- The places of a thread that only reads, with a slot that there is.
abbrev pub Reader : ℕ → Place → Type 0
Reader slots idle = Unit
Reader slots (shared_count k) = k < slots
Reader slots (shared_check k) = k < slots
Reader slots (shared_undo k) = k < slots
Reader slots (shared_wait k) = k < slots
Reader slots (reading k) = k < slots
Reader slots _ = ⊥

-- What holds of the writer, where `readers c` threads read in slot `c`.
abbrev pub AtWriter : ℕ → Bool → (ℕ → ℕ) → Place → Type 0
AtWriter slots flag readers (exclusive_scan k) = (flag ≡ true) × ((c : ℕ) → c < k → readers c ≡ 0)
AtWriter slots flag readers writing = (flag ≡ true) × ((c : ℕ) → c < slots → readers c ≡ 0)
AtWriter slots flag readers (exclusive_exchange expected) = (flag ≡ false) × (expected ≡ false)
AtWriter slots flag readers p = (flag ≡ false) × Reader slots p

module _ (slots : ℕ) (some_slot : 0 < slots) (w : ℕ) where
  -- A counter follows the marks.
  move-counter :
      (c : Call) (i : ℕ) (m : Lock) (p : Place) (k : ℕ) {t t' : ℕ}
      → t' + mark k p ≡ t + mark k (one_writer_move slots w c i m p).1
      → t < 2 ^ 31
      → t' < 2 ^ 31
      → m.locked k ≡ t
      → (one_writer_move slots w c i m p).0.locked k ≡ t'
  unfolding move
  move-counter (lock_shared q) i m idle k e b b' v = ground arith
  move-counter c i m p k e b b' v = ground arith

  -- While the flag is set no thread begins to read.
  no_new_reader :
      (c : Call) (i : ℕ) (m : Lock) (p : Place) (k : ℕ) {r r' : ℕ}
      → r' + reads k p ≡ r + reads k (one_writer_move slots w c i m p).1
      → m.write_lock ≡ true
      → r ≡ 0
      → r' ≡ 0
  unfolding move
  no_new_reader (lock_shared q) i m idle k e f v = ground arith
  no_new_reader c i m p k e f v = ground arith

  -- A thread that is not the writer stays a reader, and leaves the flag alone.
  move-Reader :
      (c : Call) (i : ℕ) (m : Lock) (p : Place)
      → i ≢ w
      → Reader slots p
      → Reader slots (one_writer_move slots w c i m p).1
        × ((one_writer_move slots w c i m p).0.write_lock ≡ m.write_lock)
  unfolding move
  move-Reader (lock_shared q) i m idle ne v = ground arith
  move-Reader c i m p ne v = ground arith

  -- The writer's own move.
  module _ (c : Call) (i : ℕ) (m : Lock) (r r' : ℕ → ℕ) (counted : (k : ℕ) → r k ≤ m.locked k) where
    own-scan :
        (k : ℕ)
        → ((q : ℕ) → r' q ≡ r q)
        → AtWriter slots m.write_lock r (exclusive_scan k)
        → AtWriter slots m.write_lock r' (one_writer_move slots w c i m (exclusive_scan k)).1
    unfolding move
    own-scan k same v = elim (Bool-cases (ltb k slots)) [
      | inl more ↦ rw more (elim (Bool-cases (m.locked k == 0)) [
        | inl zero_here ↦ rw zero_here (
          v.0,
          λ q h. elim (ℕ_discrete q k) [
            | yes e ↦ ground (arith, same q, counted k, e)
            | no ne ↦ omega (arith, same q, v.1 q (omega arith))
          ],
        )
        | inr other ↦ rw other (v.0, λ q h. absurd (omega arith))
      ])
      | inr done ↦ rw done (v.0, λ q h. ground (arith, same q, v.1 q))
    ]

    own-AtWriter :
        (p : Place)
        → ((q : ℕ) → r' q + reads q p ≡ r q + reads q (one_writer_move slots w c i m p).1)
        → AtWriter slots m.write_lock r p
        → AtWriter slots
            (one_writer_move slots w c i m p).0.write_lock
            r'
            (one_writer_move slots w c i m p).1
    unfolding move
    own-AtWriter idle e v = elim c [ lock_shared q ↦ ground arith | lock_exclusive ↦ ground arith ]
    own-AtWriter (exclusive_exchange true) e v = absurd (ground arith)
    own-AtWriter (exclusive_exchange false) e v =
        rw (v.0, exchange) (refl, λ q h. absurd (omega arith))
    own-AtWriter (exclusive_scan k) e v = own-scan k (λ q. ground (arith, e q)) v
    own-AtWriter p e v = ground arith

    -- The writer's places again, after a move by another thread.
    other-AtWriter :
        (p q : Place)
        → Reader slots p
        → i ≢ w
        → ((k : ℕ) → r' k + reads k p ≡ r k + reads k (one_writer_move slots w c i m p).1)
        → AtWriter slots m.write_lock r q
        → AtWriter slots (one_writer_move slots w c i m p).0.write_lock r' q
    other-AtWriter p q rd ne e v = rw (move-Reader c i m p ne rd).1 (go q v)
      where
        go : (q : Place) → AtWriter slots m.write_lock r q → AtWriter slots m.write_lock r' q
        go (exclusive_scan k) v = (v.0, λ k h. no_new_reader c i m p k (e k) v.0 (v.1 k h))
        go writing v = (v.0, λ k h. no_new_reader c i m p k (e k) v.0 (v.1 k h))
        go (exclusive_exchange expected) v = v
        go q v = v

-- The invariant.
pub record Inv (slots w n : ℕ) (m : Lock) (pc : ℕ → Place) : Type 0 where
  pub counters : (k : ℕ) → m.locked k ≡ total (mark k) n pc
  pub readers : (i : ℕ) → i < n → i ≢ w → Reader slots (pc i)
  pub writer : AtWriter slots m.write_lock (λ k. total (reads k) n pc) (pc w)

mark_bound : (k : ℕ) (p : Place) → mark k p ≤ 1
mark_bound k (shared_check c) = ground arith
mark_bound k p = ground arith

reads-le-mark : (k : ℕ) (p : Place) → reads k p + reads k p * 0 ≤ mark k p
reads-le-mark k (reading c) = ground arith
reads-le-mark k p = ground arith

pub reads-le : (k n : ℕ) (pc : ℕ → Place) → total (reads k) n pc ≤ total (mark k) n pc
reads-le k n pc =
    omega (arith, total_mono_two (reads k) (reads k) (mark k) 0 (reads-le-mark k) n pc)

module _ (slots : ℕ) (some_slot : 0 < slots) (w n : ℕ) (few : n < 2 ^ 31) where
  move-Inv :
      (i : ℕ) (c : Call) (m : Lock) (pc : ℕ → Place)
      → i < n
      → Inv slots w n m pc
      → Inv slots w n
          (one_writer_move slots w c i m (pc i)).0
          (update pc i (one_writer_move slots w c i m (pc i)).1)
  move-Inv i c m pc lt v = record {
    counters = λ k.
        move-counter slots some_slot w c i m (pc i) k (total-update (mark k) n pc i p' lt)
          (omega (arith, total-le_bound (mark k) 1 (mark_bound k) n pc))
          (omega (arith, total-le_bound (mark k) 1 (mark_bound k) n (update pc i p')))
          (v.counters k);
    readers = λ j hj ne. elim (ℕ_discrete i j) [
      | yes e ↦
          rw (if_pos _ e)
            (move-Reader slots some_slot w c i m (pc i) (λ here. ne (sym e ∙ here))
              (v.readers i lt (λ here. ne (sym e ∙ here)))).0
      | no other ↦ rw (if_neg _ other) (v.readers j hj ne)
    ];
    writer = elim (ℕ_discrete i w) [
      | yes e ↦ rw (if_pos _ e) (
          own-AtWriter slots some_slot w c i m (λ k. total (reads k) n pc)
            (λ k. total (reads k) n (update pc i p')) counted (pc i)
            (λ k. total-update (reads k) n pc i p' lt)
            (subst (λ q. AtWriter slots m.write_lock (λ k. total (reads k) n pc) (pc q)) (sym e)
              v.writer))
      | no other ↦ rw (if_neg _ other) (
          other-AtWriter slots some_slot w c i m (λ k. total (reads k) n pc)
            (λ k. total (reads k) n (update pc i p')) counted (pc i) (pc w) (v.readers i lt other)
            other (λ k. total-update (reads k) n pc i p' lt) v.writer)
    ];
  }
    where
      p' : Place
      p' = (one_writer_move slots w c i m (pc i)).1

      counted : (k : ℕ) → total (reads k) n pc ≤ m.locked k
      counted k = rw (v.counters k) (reads-le k n pc)

-- The lock with a flag that is not set, and no thread in a call.
abbrev pub initial : System Lock Place
initial = record { mem = record { write_lock = false; locked = λ _. 0 }; pc = λ _. idle }

pub Reach-Inv :
    {slots w n : ℕ} {s : System Lock Place}
    → 0 < slots
    → n < 2 ^ 31
    → Reach (one_writer_move slots w) n initial s
    → Inv slots w n s.mem s.pc
Reach-Inv {slots} {w} {n} some_slot few r =
    Reach-keeps (one_writer_move slots w) n (Inv slots w n)
      (λ i c m pc lt v. move-Inv slots some_slot w n few i c m pc lt v)
      (record {
        counters = λ k. sym (total-const (mark k) n idle refl);
        readers = λ i hi ne. tt;
        writer = (refl, tt);
      })
      r
