-- ===== src/Queue/MpmcBounded/Keeps.antt =====
-- Each move keeps the invariant of `mpmc_bounded_queue`, and so does each reachable state.
use hope_threading.Prelude.{
  ℕ, ◌+◌, ◌^◌, ◌≤◌, ◌<◌, ◌≡◌, refl, ◌≢◌, inl, inr, if_pos, if_neg, some, arith, ℕ_discrete,
}
use native.Mathlib.Nat.{mod-eq_of_lt}
use hope_threading.Threads.{update, System, Reach, moves, Reach-keeps_counted}
use hope_threading.Queue.MpmcBounded.{Queue, Place, Call, idle, nothing, new, move}
use hope_threading.Queue.MpmcBounded.Invariant.{At, Shape, entering, leaving}
use hope_threading.Queue.MpmcBounded.Accesses.{Moved}
use hope_threading.Queue.MpmcBounded.Moved.{move-Moved}

-- After `k` moves of `n` threads.
pub record Inv {A : Type 0} (size n k : ℕ) (q : Queue A) (pc : ℕ → Place A) : Type 0 where
  pub shape : Shape size q
  pub low : (c : ℕ) → c < size → q.sequence c < 2 ^ 64
  pub few : q.enqueue_pos ≤ k
  pub places : (i : ℕ) → i < n → At size q (pc i)
  pub unique_in :
      (i j pos : ℕ)
      → i < n
      → j < n
      → entering (pc i) ≡ some pos
      → entering (pc j) ≡ some pos
      → i ≡ j
  pub unique_out :
      (i j pos : ℕ) → i < n → j < n → leaving (pc i) ≡ some pos → leaving (pc j) ≡ some pos → i ≡ j

module _ {A : Type 0} (size : ℕ) (two : 2 ≤ size) (cells : size ≤ 2 ^ 62) (n : ℕ) where
  -- A stored sequence number is a word.
  move-low :
      (c : Call A) (i : ℕ) (q : Queue A) (p : Place A)
      → ((k : ℕ) → k < size → q.sequence k < 2 ^ 64)
      → (k : ℕ) → k < size
      → (move size c i q p).0.sequence k < 2 ^ 64
  unfolding move
  move-low c i q (idle r) low k h = ground (arith, low k)
  move-low c i q p low k h = ground (arith, low k)

  -- A position taken is below the next one to take.
  entering-lt :
      (q : Queue A) (p : Place A) (pos : ℕ)
      → At size q p
      → entering p ≡ some pos
      → pos < q.enqueue_pos
  entering-lt q (idle r) pos at e = ground arith
  entering-lt q p pos at e = ground arith

  leaving-lt :
      (q : Queue A) (p : Place A) (pos : ℕ)
      → At size q p
      → leaving p ≡ some pos
      → pos < q.dequeue_pos
  leaving-lt q (idle r) pos at e = ground arith
  leaving-lt q p pos at e = ground arith

  module _ (k i : ℕ) (c : Call A) (q : Queue A) (pc : ℕ → Place A) (lt : i < n)
      (lim : k + 1 < 2 ^ 62) (v : Inv size n k q pc) where
    abbrev q' : Queue A
    q' = (move size c i q (pc i)).0

    abbrev p' : Place A
    p' = (move size c i q (pc i)).1

    moved : Moved size q (pc i) q' p'
    moved =
        move-Moved size two q v.shape (omega (arith, v.few)) cells c i (pc i) v.low (v.places i lt)

    places' : (j : ℕ) → j < n → At size q' (update pc i p' j)
    places' j hj = elim (ℕ_discrete i j) [
      | yes e ↦ rw (if_pos (ℕ_discrete i j) e) moved.own
      | no ne ↦ rw (if_neg (ℕ_discrete i j) ne) (
          moved.others (pc j) (λ pos a b. ne (v.unique_in i j pos lt hj a b))
            (λ pos a b. ne (v.unique_out i j pos lt hj a b)) (v.places j hj))
    ]

    -- The mover's position is another than that of each thread beside it.
    apart_in : (j pos : ℕ) → j < n → i ≢ j → entering p' ≡ some pos → entering (pc j) ≢ some pos
    apart_in j pos hj ne a b = elim (moved.fresh_in pos a) [
      | inl old ↦ ne (v.unique_in i j pos lt hj old b)
      | inr new ↦ absurd (omega (arith, new, entering-lt q (pc j) pos (v.places j hj) b))
    ]

    apart_out : (j pos : ℕ) → j < n → i ≢ j → leaving p' ≡ some pos → leaving (pc j) ≢ some pos
    apart_out j pos hj ne a b = elim (moved.fresh_out pos a) [
      | inl old ↦ ne (v.unique_out i j pos lt hj old b)
      | inr new ↦ absurd (omega (arith, new, leaving-lt q (pc j) pos (v.places j hj) b))
    ]

    unique_in' :
        (a b pos : ℕ)
        → a < n
        → b < n
        → entering (update pc i p' a) ≡ some pos
        → entering (update pc i p' b) ≡ some pos
        → a ≡ b
    unique_in' a b pos ha hb ea eb =
        ground (arith, apart_in a pos ha, apart_in b pos hb, v.unique_in a b pos ha hb)

    unique_out' :
        (a b pos : ℕ)
        → a < n
        → b < n
        → leaving (update pc i p' a) ≡ some pos
        → leaving (update pc i p' b) ≡ some pos
        → a ≡ b
    unique_out' a b pos ha hb ea eb =
        ground (arith, apart_out a pos ha, apart_out b pos hb, v.unique_out a b pos ha hb)

    move-Inv : Inv size n (k + 1) q' (update pc i p')
    move-Inv = record {
      shape = moved.shape;
      low = move-low c i q (pc i) v.low;
      few = omega (arith, moved.small, v.few);
      places = places';
      unique_in = unique_in';
      unique_out = unique_out';
    }

-- The queue as it is constructed, and no thread in a call.
abbrev pub initial : {A : Type 0} → A → System (Queue A) (Place A)
initial blank = record { mem = new blank; pc = λ _. idle nothing }

new-Shape : {A : Type 0} (size : ℕ) (blank : A) → Shape size (new blank)
unfolding new
new-Shape size blank = record {
  order = omega arith;
  room = omega arith;
  counted = refl;
  full = λ pos lo hi. absurd (omega arith);
  free = λ pos lo hi. inl (mod-eq_of_lt {n = pos} {m = size} (omega arith));
}

pub Reach-Inv :
    {A : Type 0} {size n : ℕ} (blank : A) {s : System (Queue A) (Place A)}
    → 2 ≤ size
    → size ≤ 2 ^ 62
    → (r : Reach (move size) n (initial blank) s) → moves (move size) r < 2 ^ 62
    → Inv size n (moves (move size) r) s.mem s.pc
unfolding new
Reach-Inv {A} {size} {n} blank two cells r few =
    Reach-keeps_counted (move size) n (λ k q pc. k < 2 ^ 62 → Inv size n k q pc)
      (λ k i c q pc lt before lim.
        move-Inv size two cells n k i c q pc lt lim (before (omega arith)))
      (λ _. record {
        shape = new-Shape size blank;
        low = λ c h. omega arith;
        few = omega arith;
        places = λ i hi. tt;
        unique_in = λ i j pos hi hj a b. absurd (ground arith);
        unique_out = λ i j pos hi hj a b. absurd (ground arith);
      })
      r few
