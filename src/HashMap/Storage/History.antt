-- ===== src/HashMap/Storage/History.antt =====
-- A storage against the map that its calls describe.
use hope_threading.Prelude.{
  ℕ, ◌+◌, ◌*◌, ◌%◌, ◌^◌, ◌≤◌, ◌<◌, ◌≡◌, refl, Option, none, some, List, [], ◌∷◌, arith,
  if◌then◌else◌, length,
}
use native.Mathlib.Nat.{mul-le-mul_right, le_trans}
use hope_threading.HashMap.Traits.{Traits}
use hope_threading.HashMap.Lists.{find_in}
use hope_threading.HashMap.Storage.{
  find, emplace, remove, Call, emplace_call, remove_call, after_calls, new_storage,
}
use hope_threading.HashMap.Storage.Lookup.{renewed}
use hope_threading.HashMap.Storage.Contents.{
  remove-AllValid, emplace-AllValid, AllValid, emplace_in-size, find-emplace, find-remove,
}

module _ {K V : Type 0} (t : Traits K V) (b f : ℕ) where
  open t use {key, hash, equal, equal_iff, key-assign}

  -- What a key leads to after the calls, without buckets and lists.
  unfoldable pub expected : List (Call K V) → K → Option V
  expected [] k = none
  expected (emplace_call v ∷ calls) k =
      let before = expected calls (key v) in
      let rest = expected calls k in if equal (key v) k then some (renewed t v before) else rest
  expected (remove_call j ∷ calls) k =
      let rest = expected calls k in if equal j k then none else rest

  new-AllValid : AllValid t b f new_storage
  unfolding find_in
  new-AllValid i = record {
    some_list = omega arith;
    same_count = refl;
    placed = λ k j ne. refl;
    unique = λ j. tt;
  }

  -- A bucket counts at most the calls, and one.
  after_calls-size :
      (calls : List (Call K V)) (i : ℕ)
      → ((after_calls t b f calls).buckets i).size ≤ length calls + 1
  unfolding after_calls emplace remove
  after_calls-size [] i = omega arith
  after_calls-size (emplace_call v ∷ calls) i = ground (
    arith,
    after_calls-size calls i,
    emplace_in-size t b f ((after_calls t b f calls).buckets (hash (key v) % b)) v,
  )
  after_calls-size (remove_call k ∷ calls) i =
      ground (arith, after_calls-size calls i, after_calls-size calls (hash k % b))

  -- The elements of so many calls, with the factor twice, are counted by a machine's word.
  abbrev pub HaveRoom : List (Call K V) → Type 0
  HaveRoom calls = (0 < f) × ((length calls + 2) * (f * f) ≤ 2 ^ 64)

  pub fewer_calls : (c : Call K V) (calls : List (Call K V)) → HaveRoom (c ∷ calls) → HaveRoom calls
  fewer_calls c calls (pos, room) = (pos, omega (arith, room))

  pub after_calls-AllValid :
      (calls : List (Call K V)) → HaveRoom calls → AllValid t b f (after_calls t b f calls)
  unfolding after_calls
  after_calls-AllValid [] room = new-AllValid
  after_calls-AllValid (emplace_call v ∷ calls) room =
      emplace-AllValid t b f (after_calls t b f calls) v
        (after_calls-AllValid calls (fewer_calls (emplace_call v) calls room))
        (
          room.0,
          le_trans
              (mul-le-mul_right (f * f) (omega (arith, after_calls-size calls (hash (key v) % b))))
              room.1,
        )
  after_calls-AllValid (remove_call k ∷ calls) room =
      remove-AllValid t b f (after_calls t b f calls) k
        (after_calls-AllValid calls (fewer_calls (remove_call k) calls room))

  -- After any sequence of `emplace` and `remove` on a new storage, however its buckets have
  -- grown, `find` leads every key to what the calls say: if the growth factor is positive and the
  -- number of calls and two, times the factor's square, is at most 2 ^ 64.
  pub find-after_calls :
      (calls : List (Call K V)) (k : K)
      → HaveRoom calls
      → find t b f (after_calls t b f calls) k ≡ expected calls k
  unfolding after_calls find find_in expected
  find-after_calls [] k room = refl
  find-after_calls (emplace_call v ∷ calls) k room = ground (
    arith,
    find-emplace t b f (after_calls t b f calls) v k
        (after_calls-AllValid calls (fewer_calls (emplace_call v) calls room)),
    find-after_calls calls k (fewer_calls (emplace_call v) calls room),
    find-after_calls calls (key v) (fewer_calls (emplace_call v) calls room),
  )
  find-after_calls (remove_call j ∷ calls) k room = ground (
    arith,
    find-remove t b f (after_calls t b f calls) j k
        (after_calls-AllValid calls (fewer_calls (remove_call j) calls room)),
    find-after_calls calls k (fewer_calls (remove_call j) calls room),
  )
