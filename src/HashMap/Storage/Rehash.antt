-- ===== src/HashMap/Storage/Rehash.antt =====
-- The copy of a bucket's elements into more lists loses and confuses none.
use hope_threading.Prelude.{ℕ, ◌%◌, ◌≡◌, refl, ◌≢◌, ◌⊎◌, Option, none, some, List, [], ◌∷◌, arith}
use hope_threading.Threads.{update}
use hope_threading.HashMap.Traits.{Traits}
use hope_threading.HashMap.Lists.{find_in, IsUnique}
use hope_threading.HashMap.Storage.{push_all}

abbrev pub or_else {ℓ} : {A : Type ℓ} → Option A → Option A → Option A
or_else none b = b
or_else (some a) b = some a

module _ {K V : Type 0} (t : Traits K V) (b f : ℕ) where
  open t use {key, hash, equal, equal_iff}

  -- What is pushed is found in its list.
  pub push_all-find :
      (cap : ℕ) (vs : List V) (new : ℕ → List V) (k : K)
      → IsUnique t vs
      → find_in t k (push_all t b f cap vs new (hash k % cap))
        ≡ or_else (find_in t k vs) (find_in t k (new (hash k % cap)))
  unfolding push_all find_in
  push_all-find cap [] new k u = refl
  push_all-find cap (v ∷ vs) new k u = ground (
    arith,
    push_all-find cap vs (update new (hash (key v) % cap) (v ∷ new (hash (key v) % cap))) k u.1,
    equal_iff (key v) k,
    u.0,
  )

  -- And in no other one.
  pub push_all-elsewhere :
      (cap : ℕ) (vs : List V) (new : ℕ → List V) (k : K) (i : ℕ)
      → i ≢ hash k % cap
      → find_in t k (push_all t b f cap vs new i) ≡ find_in t k (new i)
  unfolding push_all find_in
  push_all-elsewhere cap [] new k i ne = refl
  push_all-elsewhere cap (v ∷ vs) new k i ne = ground (
    arith,
    push_all-elsewhere cap vs (update new (hash (key v) % cap) (v ∷ new (hash (key v) % cap))) k i
        ne,
    equal_iff (key v) k,
  )

  -- No key stands twice after the copy, if none of the pushed keys was there.
  pub push_all-IsUnique :
      (cap : ℕ) (vs : List V) (new : ℕ → List V)
      → IsUnique t vs
      → ((i : ℕ) → IsUnique t (new i))
      → ((k : K) → (find_in t k vs ≡ none) ⊎ (find_in t k (new (hash k % cap)) ≡ none))
      → (i : ℕ) → IsUnique t (push_all t b f cap vs new i)
  unfolding push_all find_in
  push_all-IsUnique cap [] new u un apart i = un i
  push_all-IsUnique cap (v ∷ vs) new u un apart i =
      push_all-IsUnique cap vs (update new (hash (key v) % cap) (v ∷ new (hash (key v) % cap))) u.1
        (λ j.
          ground (arith, un j, un (hash (key v) % cap), apart (key v), equal_iff (key v) (key v)))
        (λ k. ground (arith, apart k, u.0, equal_iff (key v) k)) i
