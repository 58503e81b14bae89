-- ===== src/HashMap/Map.antt =====
-- `hash_map` of lib/hope_thread/containers/hashmap/hash_map.h: `hash_storage` with `map_traits`. Its
-- `remove` is left out, as it cannot be instantiated.
pub mod Contents
mod Tests
use hope_threading.Prelude.{
  ℕ, ◌≡◌, refl, ◌↔◌, Bool, true, Option, none, some, List, [], ◌∷◌, if◌then◌else◌,
}
use hope_threading.HashMap.Traits.{Traits}
use hope_threading.HashMap.Storage.{Storage, emplace, obtain}

pub record KeyValue (K A : Type 0) : Type 0 where
  pub key : K
  pub value : A

-- `hash` and `equal` are the template's `THasher` and `TEqual`.
module _ {K A : Type 0} (hash : K → ℕ) (equal : K → K → Bool)
    (equal_iff : (j k : K) → (equal j k ≡ true) ↔ (j ≡ k)) (buckets_count resize_factor : ℕ) where
  abbrev pub map_traits : Traits K (KeyValue K A)
  map_traits = record {
    key = λ kv. kv.key;
    assign = λ lhs rhs. record { key = lhs.key; value = rhs.value };
    hash = hash;
    equal = equal;
    equal_iff = equal_iff;
    key-assign = λ lhs rhs. refl;
  }

  -- `hash_map::emplace` of a key and a value
  abbrev pub emplace_value : Storage (KeyValue K A) → K → A → Storage (KeyValue K A) × Bool
  emplace_value s k v =
      emplace map_traits buckets_count resize_factor s (record { key = k; value = v })

  -- `hash_map::obtain`: what `v` is afterwards, and the result. `blank` is a default value.
  unfoldable pub obtain_value : A → Storage (KeyValue K A) → K → A → A × Bool
  obtain_value blank s k v =
      let (kv, obtained) =
        obtain map_traits buckets_count resize_factor s (record { key = k; value = blank }) in
      (if obtained then kv.value else v, obtained)

  -- `hash_map::get`
  unfoldable pub get : A → Storage (KeyValue K A) → K → Option A
  get blank s k =
      let (kv, obtained) =
        obtain map_traits buckets_count resize_factor s (record { key = k; value = blank }) in
      if obtained then some kv.value else none
