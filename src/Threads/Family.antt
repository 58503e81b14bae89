-- ===== src/Threads/Family.antt =====
-- Families `ℕ → A` indexed by thread: the change of one member, and sums over the first `n`.
use hope_threading.Prelude.{
  ℕ, zero, suc, ◌+◌, ◌*◌, ◌≤◌, ◌<◌, ◌≡◌, refl, subst, ◌≢◌, ◌⊎◌, inl, inr, ite, arith, dec_lt,
  ℕ_discrete,
}

-- The family with the member at `place` replaced.
abbrev pub update {ℓ} : {A : Type ℓ} → (ℕ → A) → ℕ → A → ℕ → A
update family place new k = ite (ℕ_discrete place k) new (family k)

module _ {ℓ} {A : Type ℓ} (w : A → ℕ) where
  -- The weights of the first `n` members together.
  unfoldable pub total : ℕ → (ℕ → A) → ℕ
  total zero family = 0
  total (suc n) family = w (family n) + total n family

  -- Members from `n` on do not count, and the others make the difference of their weights.
  total_changes :
      (n : ℕ) (family : ℕ → A) (place : ℕ) (new : A)
      → ((n ≤ place) × (total n family ≡ total n (update family place new)))
        ⊎ ((place < n)
            × (w new + total n family ≡ w (family place) + total n (update family place new)))
  unfolding total
  total_changes zero family place new = ground arith
  total_changes (suc n) family place new = ground (arith, total_changes n family place new)

  pub total-update :
      (n : ℕ) (family : ℕ → A) (place : ℕ) (new : A)
      → place < n
      → total n (update family place new) + w (family place) ≡ total n family + w new
  total-update n family place new lt = elim (total_changes n family place new) [
    | inl (above, same) ↦ absurd (omega arith)
    | inr (_, changed) ↦ omega arith
  ]

  pub total-const : (n : ℕ) (a : A) → w a ≡ 0 → total n (λ _. a) ≡ 0
  unfolding total
  total-const zero a h = refl
  total-const (suc n) a h = omega (arith, total-const n a h)

  pub total_none : (n : ℕ) (family : ℕ → A) → ((k : ℕ) → w (family k) ≡ 0) → total n family ≡ 0
  unfolding total
  total_none zero family weightless = refl
  total_none (suc n) family weightless = omega (arith, weightless n, total_none n family weightless)

  pub le-total : (n : ℕ) (f : ℕ → A) (i : ℕ) → i < n → w (f i) ≤ total n f
  unfolding total
  le-total zero f i h = absurd (omega arith)
  le-total (suc n) f i h = elim (dec_lt i n) [
    | yes below ↦ omega (arith, le-total n f i below)
    | no last ↦ ground arith
  ]

  -- Two members weigh no more than all.
  pub le-total_two :
      (n : ℕ) (f : ℕ → A) (i j : ℕ) → i < n → j < n → i ≢ j → w (f i) + w (f j) ≤ total n f
  unfolding total
  le-total_two zero f i j hi hj ne = absurd (omega arith)
  le-total_two (suc n) f i j hi hj ne = elim (dec_lt i n) [
    | yes p ↦ elim (dec_lt j n) [
      | yes q ↦ omega (arith, le-total_two n f i j p q ne)
      | no q ↦ ground (arith, le-total n f i p)
    ]
    | no p ↦ elim (dec_lt j n) [
      | yes q ↦ ground (arith, le-total n f j q)
      | no q ↦ absurd (omega arith)
    ]
  ]

  pub total-le_bound : (b : ℕ) → ((a : A) → w a ≤ b) → (n : ℕ) (f : ℕ → A) → total n f ≤ n * b
  unfolding total
  total-le_bound b h zero f = omega arith
  total-le_bound b h (suc n) f = grind (arith, h (f n), total-le_bound b h n f)

  -- A sum that is not zero has a member that is not.
  pub total-pos : (n : ℕ) (f : ℕ → A) → 0 < total n f → (i : ℕ) × (i < n) × (0 < w (f i))
  unfolding total
  total-pos zero f h = absurd (omega (arith, h))
  total-pos (suc n) f h = elim (dec_lt 0 (w (f n))) [
    | yes p ↦ (n, omega arith, p)
    | no p ↦ let (i, lt, q) = total-pos n f (omega (arith, h, p)) in (i, omega (arith, lt), q)
  ]

  pub total-le_each : (b n : ℕ) (f : ℕ → A) → ((i : ℕ) → i < n → w (f i) ≤ b) → total n f ≤ n * b
  unfolding total
  total-le_each b zero f h = omega arith
  total-le_each b (suc n) f h =
      grind (arith, h n (omega arith), total-le_each b n f (λ i lt. h i (omega (arith, lt))))

pub total_mono {ℓ} :
    {A : Type ℓ} (u w : A → ℕ)
    → ((a : A) → u a ≤ w a)
    → (n : ℕ) (f : ℕ → A) → total u n f ≤ total w n f
unfolding total
total_mono u w h zero f = omega arith
total_mono u w h (suc n) f = omega (arith, h (f n), total_mono u w h n f)

module _ {ℓ} {A : Type ℓ} (u v w : A → ℕ) (b : ℕ) where
  -- What two weights never exceed at a member they do not exceed together.
  pub total_mono_two :
      ((a : A) → u a + v a * b ≤ w a)
      → (n : ℕ) (f : ℕ → A) → total u n f + total v n f * b ≤ total w n f
  unfolding total
  total_mono_two h zero f = omega arith
  total_mono_two h (suc n) f = omega (arith, h (f n), total_mono_two h n f)

-- What holds of the new member, and of each other one where it stands, holds of each member.
pub update-each {ℓ κ} :
    {A : Type ℓ} (P : ℕ → A → Type κ) (family : ℕ → A) (place : ℕ) {new : A} (j : ℕ)
    → P place new
    → (place ≢ j → P j (family j))
    → P j (update family place new j)
update-each P family place {new = new} j own others =
    elim (ℕ_discrete place j) as (λ d. P j (ite d new (family j))) [
      | yes e ↦ subst (λ k. P k new) e own
      | no ne ↦ others ne
    ]
