-- ===== src/HashMap/Storage/Contents.antt =====
-- What a storage holds after `emplace` and `remove`.
use hope_threading.Prelude.{
  ℕ, ◌+◌, ◌%◌, ◌≤◌, ◌≡◌, refl, inl, inr, ite, true, Option, none, some, arith, ℕ_discrete,
  if◌then◌else◌, Bool-cases,
}
use hope_threading.Threads.{update}
use hope_threading.HashMap.Traits.{Traits}
use hope_threading.HashMap.Lists.{
  IsUnique, remove_in, remove_in-IsUnique, find_in, remove_in, IsUnique, find_in-remove_in,
  remove_in-IsUnique,
}
use hope_threading.HashMap.Storage.{
  false, Bool, Bucket, Storage, resize, list_of, emplace_in, emplaced, emplace, find, remove,
  pushed, renewed_in, should_resize,
}
use hope_threading.HashMap.Storage.Growth.{IsValid, resize-IsValid, resize-find}
use hope_threading.HashMap.Storage.Lookup.{
  remove-placed, HasRoom, renewed, pushed-IsValid, pushed-find, renewed_in-IsValid, renewed_in-find,
  pushed-CanGrow, remove-placed,
}

update-all :
    {A : Type 0} (P : A → Type 0) (family : ℕ → A) (j : ℕ) {a : A}
    → P a
    → ((i : ℕ) → P (family i))
    → (i : ℕ) → P (update family j a i)
update-all P family j {a = a} new old i = elim (ℕ_discrete j i) as (λ d. P (ite d a (family i))) [
  | yes e ↦ new
  | no ne ↦ old i
]

-- Nothing was found, so that an element is new.
abbrev pub is_new : {A : Type 0} → Option A → Bool
is_new none = true
is_new (some v) = false

module _ {K V : Type 0} (t : Traits K V) (b f : ℕ) where
  open t use {key, hash, equal, equal_iff, key-assign}

  -- The three ways through `emplace` in its bucket.
  emplace_in-cases :
      (P : Bucket V → Type 0) (x : Bucket V) (v : V)
      → (find_in t (key v) (list_of t b f x (key v)) ≡ none
          → should_resize t b f (pushed t b f x v) ≡ true
          → P (resize t b f (pushed t b f x v)))
      → (find_in t (key v) (list_of t b f x (key v)) ≡ none → P (pushed t b f x v))
      → P (renewed_in t b f x v)
      → P (emplace_in t b f x v).0
  unfolding emplace_in
  emplace_in-cases P x v grows stays renews = go (find_in t (key v) (list_of t b f x (key v))) refl
    where
      go :
          (o : Option V)
          → find_in t (key v) (list_of t b f x (key v)) ≡ o
          → P (emplaced t b f o x v).0
      go none new = elim (Bool-cases (should_resize t b f (pushed t b f x v))) [
        | inl more ↦ rw more (grows new more)
        | inr enough ↦ rw enough (stays new)
      ]
      go (some old) found = renews

  emplace_in-IsValid :
      (x : Bucket V) (v : V)
      → IsValid t b f x
      → HasRoom t b f x
      → IsValid t b f (emplace_in t b f x v).0
  emplace_in-IsValid x v valid room =
      emplace_in-cases (IsValid t b f) x v
        (λ new grows.
          resize-IsValid t b f (pushed t b f x v) (pushed-IsValid t b f x v valid new)
            (pushed-CanGrow t b f x v room grows))
        (λ new. pushed-IsValid t b f x v valid new) (renewed_in-IsValid t b f x v valid)

  emplace_in-find :
      (x : Bucket V) (v : V) (k : K)
      → IsValid t b f x
      → find_in t k (list_of t b f (emplace_in t b f x v).0 k) ≡ (
          if equal (key v) k
          then some (renewed t v (find_in t (key v) (list_of t b f x (key v))))
          else find_in t k (list_of t b f x k))
  unfolding emplace_in
  emplace_in-find x v k valid = ground (
    arith,
    resize-find t b f (pushed t b f x v) k,
    pushed-IsValid t b f x v valid,
    pushed-find t b f x v k,
    renewed_in-find t b f x v k,
    equal_iff (key v) k,
  )

  pub emplace_in-size : (x : Bucket V) (v : V) → (emplace_in t b f x v).0.size ≤ x.size + 1
  unfolding resize pushed renewed_in
  emplace_in-size x v =
      emplace_in-cases (λ y. y.size ≤ x.size + 1) x v (λ new grows. omega arith)
        (λ new. omega arith) (omega arith)

  -- Every bucket of the storage is well formed.
  abbrev pub AllValid : Storage V → Type 0
  AllValid s = (i : ℕ) → IsValid t b f (s.buckets i)

  -- `emplace` keeps the buckets well formed if the one it changes has room.
  pub emplace-AllValid :
      (s : Storage V) (v : V)
      → AllValid s
      → HasRoom t b f (s.buckets (hash (key v) % b))
      → AllValid (emplace t b f s v).0
  unfolding emplace
  emplace-AllValid s v valid room =
      update-all (IsValid t b f) s.buckets (hash (key v) % b)
        (emplace_in-IsValid (s.buckets (hash (key v) % b)) v (valid (hash (key v) % b)) room) valid

  -- `emplace` into a storage of well formed buckets: afterwards the key of `v` leads to `v`, or
  -- to what was found renewed by `v`, and every other key to what it led to before.
  pub find-emplace :
      (s : Storage V) (v : V) (k : K)
      → AllValid s
      → find t b f (emplace t b f s v).0 k
        ≡ (if equal (key v) k then some (renewed t v (find t b f s (key v))) else find t b f s k)
  unfolding emplace find
  find-emplace s v k valid = ground (
    arith,
    emplace_in-find (s.buckets (hash (key v) % b)) v k (valid (hash (key v) % b)),
    equal_iff (key v) k,
  )

  pub removed-IsValid :
      (x : Bucket V) (k : K)
      → IsValid t b f x
      → IsValid t b f (record x {
        lists = update x.lists (hash k % x.count) (remove_in t k (list_of t b f x k));
        changed_while_resize = true;
      })
  removed-IsValid x k valid = record {
    some_list = valid.some_list;
    same_count = valid.same_count;
    placed = λ j i ne. remove-placed t b f x k j i valid ne;
    unique =
        update-all (IsUnique t) x.lists (hash k % x.count)
          (remove_in-IsUnique t k (list_of t b f x k) (valid.unique (hash k % x.count)))
          valid.unique;
  }

  pub remove-AllValid : (s : Storage V) (k : K) → AllValid s → AllValid (remove t b f s k)
  unfolding remove
  remove-AllValid s k valid =
      update-all (IsValid t b f) s.buckets (hash k % b)
        (removed-IsValid (s.buckets (hash k % b)) k (valid (hash k % b))) valid

  -- `remove` from a storage of well formed buckets: the removed key leads to nothing, and every
  -- other one to what it led to before.
  pub find-remove :
      (s : Storage V) (k j : K)
      → AllValid s
      → find t b f (remove t b f s k) j ≡ (if equal k j then none else find t b f s j)
  unfolding remove find
  find-remove s k j valid =
      ground
        (arith, find_in-remove_in t k j (list_of t b f (s.buckets (hash k % b)) k), equal_iff k j)

  emplaced-is_new : (o : Option V) (x : Bucket V) (v : V) → (emplaced t b f o x v).1 ≡ is_new o
  emplaced-is_new none x v = refl
  emplaced-is_new (some old) x v = refl

  pub emplace-is_new :
      (s : Storage V) (v : V) → (emplace t b f s v).1 ≡ is_new (find t b f s (key v))
  unfolding emplace emplace_in find
  emplace-is_new s v =
      let x = s.buckets (hash (key v) % b) in
      emplaced-is_new (find_in t (key v) (list_of t b f x (key v))) x v
