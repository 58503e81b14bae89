-- ===== src/Queue/SpscBounded/Exchanges.antt =====
-- A client of `spsc_bounded_queue` that takes each value out before it puts the next one in.
use hope_threading.Prelude.{
  ℕ, zero, suc, ◌+◌, ◌-◌, ◌*◌, ◌%◌, ◌^◌, ◌≤◌, ◌<◌, ◌≡◌, refl, sym, ap₂, ◌∙◌, Option, none, some,
  List, [], ◌∷◌, ◌++◌, map, arith, take, drop,
}
use native.Mathlib.Nat.{pow-suc}
use hope_threading.Queue.SpscBounded.{Queue, new, try_enqueue, try_dequeue}

-- What is left of the 64 doublings of `head + 1`, where `y` is a power of two.
head_small : (h y : ℕ) → 0 < y → (h + 1) * (y * 2) ≡ 2 ^ 64 → h + 1 ≤ 2 ^ 63
head_small h y pos e = grind arith

head_doubles :
    (h y : ℕ)
    → h + 1 ≤ 2 ^ 63
    → (h + 1) * (y * 2) ≡ 2 ^ 64
    → ((h + (h + 1)) % 2 ^ 64 + 1) * y ≡ 2 ^ 64
head_doubles h y lim e =
    let whole : (h + (h + 1)) % 2 ^ 64 ≡ h + (h + 1) = omega arith in rw whole (omega (arith, e))

two_pow_pos : (n : ℕ) → 0 < 2 ^ n
two_pow_pos zero = omega arith
two_pow_pos (suc n) = rw (pow-suc 2 n) (omega (arith, two_pow_pos n))

module _ {A : Type 0} where
  -- One value in and one out.
  exchange : Queue A → A → Queue A × Option A
  unfolding try_enqueue try_dequeue
  exchange q v = try_dequeue (try_enqueue q v).0

  -- What comes out for each value that is put in.
  pub exchanges : Queue A → List A → List (Option A)
  exchanges q [] = []
  exchanges q (v ∷ vs) = let (q', out) = exchange q v in out ∷ exchanges q' vs

  exchange_next :
      (q : Queue A) (v : A) (p : ℕ)
      → q.head ≡ p
      → q.tail ≡ p
      → p + 1 < 2 ^ 64
      → ((exchange q v).1 ≡ some v)
        × ((exchange q v).0.head ≡ (p + (p + 1)) % 2 ^ 64)
        × ((exchange q v).0.tail ≡ (p + (p + 1)) % 2 ^ 64)
  unfolding exchange
  exchange_next q v p a b lim = ground arith

  exchange_stuck :
      (q : Queue A) (v : A)
      → q.head ≡ 2 ^ 64 - 1
      → q.tail ≡ 2 ^ 64 - 1
      → ((exchange q v).1 ≡ none)
        × ((exchange q v).0.head ≡ 2 ^ 64 - 1)
        × ((exchange q v).0.tail ≡ 2 ^ 64 - 1)
  unfolding exchange
  exchange_stuck q v a b = ground arith

  stuck_from :
      (vs : List A) (q : Queue A)
      → q.head ≡ 2 ^ 64 - 1
      → q.tail ≡ 2 ^ 64 - 1
      → exchanges q vs ≡ map (λ _. none) vs
  unfolding exchanges
  stuck_from [] q a b = refl
  stuck_from (v ∷ vs) q a b =
      let (out, h, t) = exchange_stuck q v a b in ap₂ ◌∷◌ out (stuck_from vs (exchange q v).0 h t)

  -- The first `left` values come back, and no others.
  exchanges_from :
      (vs : List A) (left : ℕ) (q : Queue A)
      → (q.head + 1) * 2 ^ left ≡ 2 ^ 64
      → q.tail ≡ q.head
      → exchanges q vs ≡ map some (take left vs) ++ map (λ _. none) (drop left vs)
  unfolding exchanges
  exchanges_from vs zero q h t = stuck_from vs q (omega (arith, h)) (omega (arith, h, t))
  exchanges_from [] (suc left) q h t = refl
  exchanges_from (v ∷ vs) (suc left) q h t =
      let (out, hd, tl) = exchange_next q v q.head refl t (omega (arith, lim)) in
      ap₂ ◌∷◌ out (
        exchanges_from vs left (exchange q v).0 (rw hd (head_doubles q.head (2 ^ left) lim step))
          (tl ∙ sym hd))
    where
      step : (q.head + 1) * (2 ^ left * 2) ≡ 2 ^ 64
      step = rw (← pow-suc 2 left) h

      lim : q.head + 1 ≤ 2 ^ 63
      lim = head_small q.head (2 ^ left) (two_pow_pos left) step

-- The queue works 64 times and then never again: whatever its size, a client that takes each value out
-- before it puts the next one in gets the first 64 of its values back, in order, and for each later
-- one the queue says that it is empty.
pub exchanges-new :
    {A : Type 0} (size : ℕ) (blank : A) (vs : List A)
    → exchanges (new size blank) vs ≡ map some (take 64 vs) ++ map (λ _. none) (drop 64 vs)
unfolding new
exchanges-new size blank vs = exchanges_from vs 64 (new size blank) refl refl
