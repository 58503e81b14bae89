-- ===== src/HashMap/Set.antt =====
-- `hash_set` of lib/hope_thread/containers/hashmap/hash_set.h: `hash_storage` with `set_traits`.
pub mod Contents
use hope_threading.Prelude.{ℕ, ◌≡◌, refl, ◌↔◌, Bool, true}
use hope_threading.HashMap.Traits.{Traits}

-- `hash` and `equal` are the template's `THasher` and `TEqual`.
module _ {K : Type 0} (hash : K → ℕ) (equal : K → K → Bool)
    (equal_iff : (j k : K) → (equal j k ≡ true) ↔ (j ≡ k)) where
  abbrev pub set_traits : Traits K K
  set_traits = record {
    key = λ k. k;
    assign = λ old new. old;
    hash = hash;
    equal = equal;
    equal_iff = equal_iff;
    key-assign = λ old new. refl;
  }
