-- ===== src/HashMap/Traits.antt =====
-- What `hash_storage` of lib/hope_thread/containers/hashmap/hash_storage.h takes as `TKeyTraits`,
-- `THasher` and `TEqual`.
use hope_threading.Prelude.{ℕ, Bool, true, ◌≡◌, ◌↔◌}

-- `assign old new` is what `assign_value` leaves in an element; it keeps the key. The hash is any
-- function of the key, and the equality decides equality.
pub record Traits (K V : Type 0) : Type 0 where
  pub key : V → K
  pub assign : V → V → V
  pub hash : K → ℕ
  pub equal : K → K → Bool
  pub equal_iff : (a b : K) → (equal a b ≡ true) ↔ (a ≡ b)
  pub key-assign : (old new : V) → key (assign old new) ≡ key old
