-- ===== src/HashMap/Storage/Size.antt =====
-- `size` against the keys that the calls leave.
use hope_threading.Prelude.{
  ℕ, ◌+◌, ◌*◌, ◌%◌, ◌^◌, ◌≤◌, ◌≡◌, refl, ◌∙◌, ap, sym, false, Bool, not, ◌||◌, List, [], ◌∷◌, arith,
  if◌then◌else◌, length,
}
use native.Mathlib.Nat.{mul-pos, mul-le-mul_left}
use hope_threading.HashMap.Traits.{Traits}
use hope_threading.HashMap.Lists.{length-remove_in}
use hope_threading.HashMap.Storage.{
  Call, emplace_call, remove_call, after_calls, size, find, emplace, remove, list_of,
}
use hope_threading.HashMap.Storage.Contents.{is_new, emplace-is_new}
use hope_threading.HashMap.Storage.History.{
  expected, HaveRoom, after_calls-AllValid, find-after_calls, fewer_calls,
}

module _ {K V : Type 0} (t : Traits K V) (b f : ℕ) where
  open t use {key, hash, equal, equal_iff}

  abbrev pub has : K → List K → Bool
  has k [] = false
  has k (j ∷ js) = equal j k || has k js

  abbrev without : K → List K → List K
  without k [] = []
  without k (j ∷ js) = let rest = without k js in if equal j k then rest else j ∷ rest

  abbrev pub Differ : List K → Type 0
  Differ [] = Unit
  Differ (k ∷ ks) = (has k ks ≡ false) × Differ ks

  -- The keys that are left after the calls, each once.
  unfoldable pub keys_left : List (Call K V) → List K
  keys_left [] = []
  keys_left (emplace_call v ∷ calls) =
      let rest = keys_left calls in if has (key v) rest then rest else key v ∷ rest
  keys_left (remove_call k ∷ calls) = without k (keys_left calls)

  has-without :
      (j k : K) (ks : List K) → has k (without j ks) ≡ (if equal j k then false else has k ks)
  has-without j k [] = ground arith
  has-without j k (i ∷ ks) =
      ground (arith, has-without j k ks, equal_iff i j, equal_iff i k, equal_iff j k)

  without-Differ : (k : K) (ks : List K) → Differ ks → Differ (without k ks)
  without-Differ k [] d = tt
  without-Differ k (j ∷ ks) d =
      ground (arith, without-Differ k ks d.1, has-without k j ks, d.0, equal_iff j k, equal_iff k j)

  length-without :
      (k : K) (ks : List K)
      → Differ ks
      → length ks ≡ length (without k ks) + (if has k ks then 1 else 0)
  length-without k [] d = refl
  length-without k (j ∷ ks) d = ground (arith, length-without k ks d.1, d.0, equal_iff j k)

  keys_left-Differ : (calls : List (Call K V)) → Differ (keys_left calls)
  unfolding keys_left
  keys_left-Differ [] = tt
  keys_left-Differ (emplace_call v ∷ calls) = ground (arith, keys_left-Differ calls)
  keys_left-Differ (remove_call k ∷ calls) =
      without-Differ k (keys_left calls) (keys_left-Differ calls)

  has-keys_left :
      (calls : List (Call K V)) (k : K)
      → has k (keys_left calls) ≡ not (is_new (expected t b f calls k))
  unfolding keys_left expected
  has-keys_left [] k = refl
  has-keys_left (emplace_call v ∷ calls) k =
      ground (arith, has-keys_left calls k, has-keys_left calls (key v), equal_iff (key v) k)
  has-keys_left (remove_call j ∷ calls) k =
      ground (arith, has-keys_left calls k, has-without j k (keys_left calls))

  length-keys_left : (calls : List (Call K V)) → length (keys_left calls) ≤ length calls
  unfolding keys_left
  length-keys_left [] = omega arith
  length-keys_left (emplace_call v ∷ calls) = ground (arith, length-keys_left calls)
  length-keys_left (remove_call k ∷ calls) =
      omega
        (arith, length-keys_left calls, length-without k (keys_left calls) (keys_left-Differ calls))

  few : (calls : List (Call K V)) → HaveRoom t b f calls → length calls + 2 ≤ 2 ^ 64
  few calls room =
      omega (
        arith,
        room,
        mul-le-mul_left {m = 1} {n = f * f} (length calls + 2) (mul-pos room.0 room.0),
      )

  size-left :
      (calls : List (Call K V))
      → HaveRoom t b f calls
      → size t b f (after_calls t b f calls) ≡ length (keys_left calls)
  unfolding after_calls keys_left size emplace remove find
  size-left [] room = refl
  size-left (emplace_call v ∷ calls) room =
      let fewer = fewer_calls t b f (emplace_call v) calls room in
      ground (
        arith,
        size-left calls fewer,
        emplace-is_new t b f (after_calls t b f calls) v,
        find-after_calls t b f calls (key v) fewer,
        has-keys_left calls (key v),
        length-keys_left calls,
        few (emplace_call v ∷ calls) room,
      )
  size-left (remove_call k ∷ calls) room =
      let fewer = fewer_calls t b f (remove_call k) calls room in
      let x = (after_calls t b f calls).buckets (hash k % b) in
      ground (
        arith,
        size-left calls fewer,
        length-remove_in t k (list_of t b f x k)
            ((after_calls-AllValid t b f calls fewer (hash k % b)).unique (hash k % x.count)),
        find-after_calls t b f calls k fewer,
        has-keys_left calls k,
        length-without k (keys_left calls) (keys_left-Differ calls),
        length-keys_left calls,
        few (remove_call k ∷ calls) room,
      )

  -- `size` counts the elements: after any sequence of `emplace` and `remove` on a new storage it is the
  -- length of a list without repetitions that has exactly the keys that `find` finds. The growth factor is
  -- positive and the number of calls and two, times its square, is at most 2 ^ 64.
  pub size-after_calls :
      (calls : List (Call K V))
      → HaveRoom t b f calls
      → (size t b f (after_calls t b f calls) ≡ length (keys_left calls))
        × Differ (keys_left calls)
        × ((k : K)
            → has k (keys_left calls) ≡ not (is_new (find t b f (after_calls t b f calls) k)))
  size-after_calls calls room = (
    size-left calls room,
    keys_left-Differ calls,
    λ k.
        has-keys_left calls k
        ∙ ap (λ o. not (is_new o)) (sym (find-after_calls t b f calls k room)),
  )
