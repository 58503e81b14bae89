-- ===== src/HashMap/Map/Tests.antt =====
-- A map from numbers to numbers, hashed to themselves, as 8 buckets that double.
use hope_threading.Prelude.{ℕ, ◌≡◌, Bool, true, false, some, List, [], ◌∷◌, arith, ◌==◌, ==_iff}
use hope_threading.HashMap.Map.{KeyValue, emplace_value, obtain_value, get}
use hope_threading.HashMap.Map.Contents.{lookup, after, get-after}

abbrev equal : ℕ → ℕ → Bool
equal a b = a == b

-- The newest first; 9 and 17 are in one bucket.
abbrev pairs : List (KeyValue ℕ ℕ)
pairs =
    record { key = 17; value = 6 }
    ∷ record { key = 9; value = 5 }
    ∷ record { key = 17; value = 4 }
    ∷ []

get-after_example :
    (get (λ k. k) equal ==_iff 8 2 0 (after (λ k. k) equal ==_iff 8 2 pairs) 17 ≡ some 6)
    × (obtain_value (λ k. k) equal ==_iff 8 2 0 (after (λ k. k) equal ==_iff 8 2 pairs) 17 1
        ≡ (6, true))
    × ((emplace_value (λ k. k) equal ==_iff 8 2 (after (λ k. k) equal ==_iff 8 2 pairs) 17 1).1
        ≡ false)
unfolding lookup
get-after_example = get-after (λ k. k) equal ==_iff 8 2 pairs 17 0 1 (omega arith, omega arith)
