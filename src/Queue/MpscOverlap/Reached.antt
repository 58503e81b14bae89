-- ===== src/Queue/MpscOverlap/Reached.antt =====
-- What holds in each reachable state of `mpsc_bounded_queue`.
use hope_threading.Prelude.{
  ℕ, ◌+◌, ◌^◌, ◌≤◌, ◌<◌, ◌≡◌, refl, sym, subst, ◌≢◌, inl, inr, if_pos, if_neg, some, arith, false,
  ℕ_discrete,
}
use hope_threading.Threads.{update, update-each, System, Reach, moves, Reach-keeps_counted}
use hope_threading.Queue.MpscOverlap.{
  Queue, Place, Call, move, exchanged, new, idle, nothing, enqueue_load, enqueue_test,
  enqueue_exchange, enqueue_write, enqueue_ready, dequeue_test, dequeue_look, dequeue_read,
  dequeue_clear, dequeue_move,
}
use hope_threading.Queue.MpscOverlap.Invariant.{sole_move, gone, entering, At, Shape, Moved}
use hope_threading.Queue.MpscOverlap.Bounds.{Placed, move-Placed}
use hope_threading.Queue.MpscOverlap.Moved.{move-Moved}

-- After `k` moves; `low` is the first position that the consumer has not given back.
pub record Inv {A : Type 0} (size k : ℕ) (q : Queue A) (pc : ℕ → Place A) : Type 0 where
  pub low : ℕ
  pub shape : Shape size q low
  pub few : q.head ≤ k
  pub places : (i : ℕ) → At size q low i (pc i)
  pub unique :
      (i j pos : ℕ) → entering size (pc i) ≡ some pos → entering size (pc j) ≡ some pos → i ≡ j
  pub lowest : low ≡ q.tail + gone size (pc 0)

module _ {A : Type 0} (size : ℕ) (blank : A) (k i : ℕ) (c : Call A) (q : Queue A) (pc : ℕ → Place A)
    (lim : k + 1 < 2 ^ 62) (v : Inv size k q pc)
    (fits : (sole_move size blank c i q (pc i)).0.overfilled ≡ false) where
  abbrev q' : Queue A
  q' = (sole_move size blank c i q (pc i)).0

  abbrev p' : Place A
  p' = (sole_move size blank c i q (pc i)).1

  abbrev left : (low' : ℕ) × Moved size i q v.low (pc i) q' low' p'
  left =
      move-Moved size blank q v.low v.shape (omega (arith, v.few, lim)) c i (pc i) (v.places i)
        (λ z. subst (λ j. v.low ≡ q.tail + gone size (pc j)) (sym z) v.lowest) fits

  low' : ℕ
  low' = left.0

  moved : Moved size i q v.low (pc i) q' low' p'
  unfolding low'
  moved = left.1

  others' : (j : ℕ) → i ≢ j → At size q' low' j (pc j)
  others' j ne =
      moved.others j (pc j) ne (λ pos a b. ne (v.unique i j pos a b))
        (λ z. subst (λ j. v.low ≡ q.tail + gone size (pc j)) (sym z) v.lowest) (v.places j)

  -- A position taken is below the head.
  entering-lt : (j pos : ℕ) → entering size (pc j) ≡ some pos → pos < q.head
  entering-lt j pos e = below (pc j) (v.places j) e
    where
      below : (p : Place A) → At size q v.low j p → entering size p ≡ some pos → pos < q.head
      below (idle r) at e = ground arith
      below p at e = ground arith

  apart : (j pos : ℕ) → i ≢ j → entering size p' ≡ some pos → entering size (pc j) ≢ some pos
  apart j pos ne a b = elim (moved.fresh pos a) [
    | inl old ↦ ne (v.unique i j pos old b)
    | inr new ↦ absurd (omega (arith, new, entering-lt j pos b))
  ]

  unique' :
      (a b pos : ℕ)
      → entering size (update pc i p' a) ≡ some pos
      → entering size (update pc i p' b) ≡ some pos
      → a ≡ b
  unique' a b pos ea eb = ground (arith, apart a pos, apart b pos, v.unique a b pos)

  lowest' : low' ≡ q'.tail + gone size (update pc i p' 0)
  lowest' = elim (ℕ_discrete i 0) [
    | yes z ↦ rw (if_pos (ℕ_discrete i 0) z) (moved.lowest.0 z)
    | no ne ↦
        rw (if_neg (ℕ_discrete i 0) ne)
          (omega (arith, v.lowest, moved.lowest.1 (omega (arith, ne))))
  ]

  move-Inv : Inv size (k + 1) q' (update pc i p')
  move-Inv = record {
    low = low';
    shape = moved.shape;
    few = omega (arith, moved.small, v.few);
    places = λ j. update-each (λ j p. At size q' low' j p) pc i j moved.own (others' j);
    unique = unique';
    lowest = lowest';
  }

-- The queue as it is constructed, and no thread in a call.
abbrev pub initial : {A : Type 0} → A → System (Queue A) (Place A)
initial blank = record { mem = new blank; pc = λ _. idle nothing }

-- An exchange that has found the queue full is not forgotten.
stays_overfilled :
    {A : Type 0} (size : ℕ) (blank : A) (c : Call A) (i : ℕ) (q : Queue A) (p : Place A)
    → (sole_move size blank c i q p).0.overfilled ≡ false
    → q.overfilled ≡ false
unfolding move exchanged
stays_overfilled size blank c i q (enqueue_exchange v pos) fits = ground (arith, fits)
stays_overfilled size blank c i q (idle r) fits = fits
stays_overfilled size blank c i q (enqueue_load v) fits = fits
stays_overfilled size blank c i q (enqueue_test v pos) fits = fits
stays_overfilled size blank c i q (enqueue_write v pos) fits = fits
stays_overfilled size blank c i q (enqueue_ready pos) fits = fits
stays_overfilled size blank c i q dequeue_test fits = fits
stays_overfilled size blank c i q dequeue_look fits = fits
stays_overfilled size blank c i q dequeue_read fits = fits
stays_overfilled size blank c i q (dequeue_clear v) fits = fits
stays_overfilled size blank c i q (dequeue_move v) fits = fits

pub Reach-Inv :
    {A : Type 0} {size n : ℕ} (blank : A) {s : System (Queue A) (Place A)}
    → (r : Reach (sole_move size blank) n (initial blank) s)
    → moves (sole_move size blank) r < 2 ^ 62
    → s.mem.overfilled ≡ false
    → Inv size (moves (sole_move size blank) r) s.mem s.pc
unfolding new
Reach-Inv {A} {size} {n} blank r few =
    Reach-keeps_counted (sole_move size blank) n
      (λ k q pc. k < 2 ^ 62 → q.overfilled ≡ false → Inv size k q pc)
      (λ k i c q pc lt before lim fits.
        move-Inv size blank k i c q pc lim
          (before (omega arith) (stays_overfilled size blank c i q (pc i) fits)) fits)
      (λ _ _. record {
        low = 0;
        shape = record {
          bottom = (omega arith, omega arith);
          order = omega arith;
          room = omega arith;
          counted = refl;
          values = λ p lo hi set. absurd (omega arith);
          free = λ p lo hi. refl;
        };
        few = omega arith;
        places = λ i. tt;
        unique = λ i j pos a b. absurd (ground arith);
        lowest = refl;
      })
      r few

-- The positions of each reachable state, whether or not an exchange has found the queue full.
pub Reach-Placed :
    {A : Type 0} {size n : ℕ} (blank : A) {s : System (Queue A) (Place A)}
    → size ≤ 2 ^ 62
    → (r : Reach (sole_move size blank) n (initial blank) s)
    → moves (sole_move size blank) r < 2 ^ 62
    → Placed size (moves (sole_move size blank) r) s.mem s.pc
unfolding new
Reach-Placed {A} {size} {n} blank cells r few =
    Reach-keeps_counted (sole_move size blank) n (λ k q pc. k < 2 ^ 62 → Placed size k q pc)
      (λ k i c q pc lt before lim.
        move-Placed size blank k i c q pc cells lim (before (omega arith)))
      (λ _. record {
        within = record { order = omega arith; room = omega arith; counted = refl };
        few = omega arith;
        places = λ i. tt;
      })
      r few
