-- ===== src/HashMap/Set/Contents.antt =====
-- A `hash_set` against the set that its calls describe.
use hope_threading.Prelude.{
  ℕ, ◌≡◌, refl, ◌↔◌, ◌∙◌, ap, Bool, true, false, not, Option, none, some, List, [], ◌∷◌,
  if◌then◌else◌, arith,
}
use hope_threading.HashMap.Storage.{Call, emplace_call, remove_call, after_calls, find, emplace}
use hope_threading.HashMap.Storage.Contents.{is_new, emplace-is_new}
use hope_threading.HashMap.Storage.History.{expected, HaveRoom, find-after_calls}
use hope_threading.HashMap.Set.{set_traits}

module _ {K : Type 0} (hash : K → ℕ) (equal : K → K → Bool)
    (equal_iff : (j k : K) → (equal j k ≡ true) ↔ (j ≡ k)) (b f : ℕ) where
  -- Whether the newest call about a key has entered it.
  unfoldable pub member : List (Call K K) → K → Bool
  member [] k = false
  member (emplace_call j ∷ calls) k = let rest = member calls k in if equal j k then true else rest
  member (remove_call j ∷ calls) k = let rest = member calls k in if equal j k then false else rest

  abbrev pub if_member : Bool → K → Option K
  if_member true k = some k
  if_member false k = none

  expected-eq :
      (calls : List (Call K K)) (k : K)
      → expected (set_traits hash equal equal_iff) b f calls k ≡ if_member (member calls k) k
  unfolding expected member
  expected-eq [] k = refl
  expected-eq (emplace_call j ∷ calls) k =
      ground (arith, expected-eq calls k, expected-eq calls j, equal_iff j k)
  expected-eq (remove_call j ∷ calls) k = ground (arith, expected-eq calls k)

  is_new-if_member : (m : Bool) (k : K) → is_new (if_member m k) ≡ not m
  is_new-if_member true k = refl
  is_new-if_member false k = refl

  -- After any calls of `emplace` and `remove`, a `hash_set` is the set that they describe: `find` gives
  -- the key if the newest call about it has entered it and nothing otherwise, and a further `emplace`
  -- says true exactly if the key is not in the set. The growth factor is positive, and the number of
  -- calls and two, times its square, is at most 2 ^ 64.
  pub find-after_set_calls :
      (calls : List (Call K K)) (k : K)
      → HaveRoom (set_traits hash equal equal_iff) b f calls
      → let t = set_traits hash equal equal_iff in
        let s = after_calls t b f calls in
        (find t b f s k ≡ if_member (member calls k) k)
        × ((emplace t b f s k).1 ≡ not (member calls k))
  find-after_set_calls calls k room =
      let t = set_traits hash equal equal_iff in
      let found = find-after_calls t b f calls k room ∙ expected-eq calls k in
      (
        found,
        emplace-is_new t b f (after_calls t b f calls) k
            ∙ ap is_new found
            ∙ is_new-if_member (member calls k) k,
      )
