-- ===== src/HashMap/Lists.antt =====
-- The collision lists of `hash_storage`: search, renewal and removal.
use hope_threading.Prelude.{
  ◌+◌, ◌≡◌, refl, Option, none, some, List, [], ◌∷◌, arith, if◌then◌else◌, length,
}
use hope_threading.HashMap.Traits.{Traits}

module _ {K V : Type 0} (t : Traits K V) where
  open t use {key, assign, equal, equal_iff, key-assign}

  -- `std::find_if` with the key's equality
  unfoldable pub find_in : K → List V → Option V
  find_in k [] = none
  find_in k (v ∷ vs) = if equal (key v) k then some v else find_in k vs

  -- The first element of the key is renewed.
  unfoldable pub renew : K → V → List V → List V
  renew k new [] = []
  renew k new (v ∷ vs) = if equal (key v) k then assign v new ∷ vs else v ∷ renew k new vs

  -- `remove_if`
  unfoldable pub remove_in : K → List V → List V
  remove_in k [] = []
  remove_in k (v ∷ vs) = let rest = remove_in k vs in if equal (key v) k then rest else v ∷ rest

  -- No key stands twice.
  abbrev pub IsUnique : List V → Type 0
  IsUnique [] = Unit
  IsUnique (v ∷ vs) = (find_in (key v) vs ≡ none) × IsUnique vs

  abbrev pub assigned : V → Option V → Option V
  assigned new none = none
  assigned new (some v) = some (assign v new)

  pub find_in-renew :
      (k j : K) (new : V) (vs : List V)
      → find_in j (renew k new vs)
        ≡ (if equal k j then assigned new (find_in j vs) else find_in j vs)
  unfolding find_in renew
  find_in-renew k j new [] = ground arith
  find_in-renew k j new (v ∷ vs) = ground (
    arith,
    find_in-renew k j new vs,
    key-assign v new,
    equal_iff (key v) k,
    equal_iff (key v) j,
    equal_iff (key (assign v new)) j,
    equal_iff k j,
  )

  pub find_in-remove_in :
      (k j : K) (vs : List V)
      → find_in j (remove_in k vs) ≡ (if equal k j then none else find_in j vs)
  unfolding find_in remove_in
  find_in-remove_in k j [] = ground arith
  find_in-remove_in k j (v ∷ vs) =
      ground
        (arith, find_in-remove_in k j vs, equal_iff (key v) k, equal_iff (key v) j, equal_iff k j)

  pub renew-IsUnique : (k : K) (new : V) (vs : List V) → IsUnique vs → IsUnique (renew k new vs)
  unfolding renew
  renew-IsUnique k new [] u = tt
  renew-IsUnique k new (v ∷ vs) u = ground (
    arith,
    renew-IsUnique k new vs u.1,
    key-assign v new,
    find_in-renew k (key v) new vs,
    equal_iff (key v) k,
    equal_iff k (key v),
  )

  pub remove_in-IsUnique : (k : K) (vs : List V) → IsUnique vs → IsUnique (remove_in k vs)
  unfolding remove_in
  remove_in-IsUnique k [] u = tt
  remove_in-IsUnique k (v ∷ vs) u = ground (
    arith,
    remove_in-IsUnique k vs u.1,
    find_in-remove_in k (key v) vs,
    equal_iff (key v) k,
    equal_iff k (key v),
  )

  -- The list becomes shorter exactly if the key was there.
  pub length-remove_in :
      (k : K) (vs : List V)
      → IsUnique vs
      → length vs ≡ length (remove_in k vs) + elim (find_in k vs) [ none ↦ 0 | some v ↦ 1 ]
  unfolding find_in remove_in
  length-remove_in k [] u = refl
  length-remove_in k (v ∷ vs) u = ground (arith, length-remove_in k vs u.1, equal_iff (key v) k)
