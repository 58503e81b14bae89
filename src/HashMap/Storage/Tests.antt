-- ===== src/HashMap/Storage/Tests.antt =====
-- The storage of numbers with numbers as their keys, hashed to themselves, as 8 buckets that double.
use hope_threading.Prelude.{not, ℕ, ◌≡◌, refl, some, List, [], ◌∷◌, arith, ◌==◌, ==_iff}
use hope_threading.HashMap.Traits.{Traits}
use hope_threading.HashMap.Storage.{size, find, Call, emplace_call, remove_call, after_calls}
use hope_threading.HashMap.Storage.Contents.{is_new}
use hope_threading.HashMap.Storage.Size.{has, Differ, keys_left, size-after_calls}
use hope_threading.HashMap.Storage.History.{expected, find-after_calls}

abbrev numbers : Traits ℕ (ℕ × ℕ)
numbers = record {
  key = λ v. v.0;
  assign = λ old new. (old.0, new.1);
  hash = λ k. k;
  equal = λ a b. a == b;
  equal_iff = λ a b. ==_iff a b;
  key-assign = λ old new. refl;
}

abbrev calls : List (Call ℕ (ℕ × ℕ))
calls =
    emplace_call (17, 6)
    ∷ remove_call 9
    ∷ emplace_call (9, 5)
    ∷ emplace_call (17, 4)
    ∷ emplace_call (1, 3)
    ∷ []

find-after_calls_example : find numbers 8 2 (after_calls numbers 8 2 calls) 17 ≡ some (17, 6)
unfolding expected
find-after_calls_example = find-after_calls numbers 8 2 calls 17 (omega arith, omega arith)

size-after_calls_example :
    (size numbers 8 2 (after_calls numbers 8 2 calls) ≡ 2)
    × Differ numbers 8 2 (keys_left numbers 8 2 calls)
    × ((k : ℕ)
        → has numbers 8 2 k (keys_left numbers 8 2 calls)
          ≡ not (is_new (find numbers 8 2 (after_calls numbers 8 2 calls) k)))
unfolding keys_left
size-after_calls_example = size-after_calls numbers 8 2 calls (omega arith, omega arith)
