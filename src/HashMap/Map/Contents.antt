-- ===== src/HashMap/Map/Contents.antt =====
-- A `hash_map` against the list of the pairs that have been entered.
use hope_threading.Prelude.{
  inr, inl, Option-cases, ◌∙◌, ap, arith, ℕ, ◌≡◌, refl, ◌↔◌, Bool, true, false, Option, none, some,
  List, [], ◌∷◌, if◌then◌else◌,
}
use hope_threading.HashMap.Storage.{obtain, Storage, Call, emplace_call, after_calls, find}
use hope_threading.HashMap.Storage.Contents.{is_new, emplace-is_new}
use hope_threading.HashMap.Storage.History.{expected, HaveRoom, find-after_calls}
use hope_threading.HashMap.Map.{KeyValue, map_traits, emplace_value, obtain_value, get}

module _ {K A : Type 0} (hash : K → ℕ) (equal : K → K → Bool)
    (equal_iff : (j k : K) → (equal j k ≡ true) ↔ (j ≡ k)) (b f : ℕ) where
  -- The value of the newest pair of a key.
  unfoldable pub lookup : List (KeyValue K A) → K → Option A
  lookup [] k = none
  lookup (kv ∷ pairs) k =
      let rest = lookup pairs k in if equal kv.key k then some kv.value else rest

  -- The calls that enter the pairs, the newest first.
  abbrev pub entering : List (KeyValue K A) → List (Call K (KeyValue K A))
  entering [] = []
  entering (kv ∷ pairs) = emplace_call kv ∷ entering pairs

  abbrev pub after : List (KeyValue K A) → Storage (KeyValue K A)
  after pairs = after_calls (map_traits hash equal equal_iff b f) b f (entering pairs)

  abbrev value_of : Option (KeyValue K A) → Option A
  value_of none = none
  value_of (some kv) = some kv.value

  value_of-expected :
      (pairs : List (KeyValue K A)) (k : K)
      → value_of (expected (map_traits hash equal equal_iff b f) b f (entering pairs) k)
        ≡ lookup pairs k
  unfolding expected lookup
  value_of-expected [] k = refl
  value_of-expected (kv ∷ pairs) k = ground (arith, value_of-expected pairs k)

  found_in :
      (pairs : List (KeyValue K A)) (k : K)
      → HaveRoom (map_traits hash equal equal_iff b f) b f (entering pairs)
      → value_of (find (map_traits hash equal equal_iff b f) b f (after pairs) k) ≡ lookup pairs k
  found_in pairs k room =
      ap value_of
        (find-after_calls (map_traits hash equal equal_iff b f) b f (entering pairs) k room)
      ∙ value_of-expected pairs k

  abbrev pub obtained : A → Option A → A × Bool
  obtained v none = (v, false)
  obtained v (some found) = (found, true)

  -- What the operations say of a storage, by what `find` does.
  value_of-found :
      (s : Storage (KeyValue K A)) (k : K) (blank v : A)
      → let found = find (map_traits hash equal equal_iff b f) b f s k in
        (get hash equal equal_iff b f blank s k ≡ value_of found)
        × (obtain_value hash equal equal_iff b f blank s k v ≡ obtained v (value_of found))
        × (is_new found ≡ is_new (value_of found))
  unfolding get obtain_value obtain find
  value_of-found s k blank v =
      elim (Option-cases (find (map_traits hash equal equal_iff b f) b f s k)) [
        | inl nothing ↦ ground (arith, nothing)
        | inr (kv, found) ↦ ground (arith, found)
      ]

  -- A `hash_map` into which any pairs have been entered one after another is a map: `get` gives the
  -- value of the newest pair of a key, or nothing without one; `obtain` gives the same value, or says
  -- false and leaves its argument; and `emplace` of a further pair says whether the key has been new. The
  -- growth factor is positive, and the number of pairs and two, times its square, is at most 2 ^ 64.
  pub get-after :
      (pairs : List (KeyValue K A)) (k : K) (blank v : A)
      → HaveRoom (map_traits hash equal equal_iff b f) b f (entering pairs)
      → (get hash equal equal_iff b f blank (after pairs) k ≡ lookup pairs k)
        × (obtain_value hash equal equal_iff b f blank (after pairs) k v
            ≡ obtained v (lookup pairs k))
        × ((emplace_value hash equal equal_iff b f (after pairs) k v).1 ≡ is_new (lookup pairs k))
  get-after pairs k blank v room =
      let t = map_traits hash equal equal_iff b f in
      let says = value_of-found (after pairs) k blank v in
      let held = found_in pairs k room in
      (
        says.0 ∙ held,
        says.1 ∙ ap (obtained v) held,
        emplace-is_new t b f (after pairs) (record { key = k; value = v })
            ∙ says.2
            ∙ ap is_new held,
      )
