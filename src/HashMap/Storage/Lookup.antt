-- ===== src/HashMap/Storage/Lookup.antt =====
-- `emplace` and `remove` in the bucket of their key.
use hope_threading.Prelude.{
  ℕ, ◌+◌, ◌*◌, ◌%◌, ◌^◌, ◌≤◌, ◌<◌, ◌≡◌, ◌≢◌, true, Option, none, some, ◌∷◌, arith, if◌then◌else◌,
}
use native.Mathlib.Nat.{mul-lt-mul_of_pos_right, mul-le-mul_right, mul_assoc}
use hope_threading.Threads.{update}
use hope_threading.HashMap.Traits.{Traits}
use hope_threading.HashMap.Lists.{
  assigned, renew-IsUnique, find_in, renew, remove_in, find_in-renew, find_in-remove_in,
}
use hope_threading.HashMap.Storage.{should_resize, pushed, renewed_in, Bucket, list_of}
use hope_threading.HashMap.Storage.Growth.{CanGrow, IsValid}

-- What the key of `new` leads to after `emplace`.
abbrev pub renewed : {K V : Type 0} → Traits K V → V → Option V → V
renewed t new none = new
renewed t new (some old) = t.assign old new

module _ {K V : Type 0} (t : Traits K V) (b f : ℕ) where
  open t use {key, hash, equal, equal_iff, key-assign}

  renew-placed :
      (x : Bucket V) (v : V) (k : K) (i : ℕ)
      → IsValid t b f x
      → i ≢ hash k % x.count
      → find_in t k (
          update x.lists
            (hash (key v) % x.count)
            (renew t (key v) v (x.lists (hash (key v) % x.count)))
            i)
        ≡ none
  renew-placed x v k i valid ne =
      ground (arith, valid.placed k i, find_in-renew t (key v) k v (x.lists i), equal_iff (key v) k)

  push-placed :
      (x : Bucket V) (v : V) (k : K) (i : ℕ)
      → IsValid t b f x
      → i ≢ hash k % x.count
      → find_in t k
          (update x.lists (hash (key v) % x.count) (v ∷ x.lists (hash (key v) % x.count)) i)
        ≡ none
  unfolding find_in
  push-placed x v k i valid ne = ground (arith, valid.placed k i, equal_iff (key v) k)

  pub remove-placed :
      (x : Bucket V) (j k : K) (i : ℕ)
      → IsValid t b f x
      → i ≢ hash k % x.count
      → find_in t k
          (update x.lists (hash j % x.count) (remove_in t j (x.lists (hash j % x.count))) i)
        ≡ none
  remove-placed x j k i valid ne =
      ground (arith, valid.placed k i, find_in-remove_in t j k (x.lists i), equal_iff j k)

  pub pushed-IsValid :
      (x : Bucket V) (v : V)
      → IsValid t b f x
      → find_in t (key v) (list_of t b f x (key v)) ≡ none
      → IsValid t b f (pushed t b f x v)
  unfolding pushed
  pushed-IsValid x v valid new = record {
    some_list = valid.some_list;
    same_count = valid.same_count;
    placed = λ k i ne. push-placed x v k i valid ne;
    unique = λ i. ground (arith, valid.unique i, new);
  }

  pub pushed-find :
      (x : Bucket V) (v : V) (k : K)
      → find_in t k (list_of t b f (pushed t b f x v) k)
        ≡ (if equal (key v) k then some v else find_in t k (list_of t b f x k))
  unfolding pushed find_in
  pushed-find x v k = ground (arith, equal_iff (key v) k)

  pub renewed_in-IsValid :
      (x : Bucket V) (v : V) → IsValid t b f x → IsValid t b f (renewed_in t b f x v)
  unfolding renewed_in
  renewed_in-IsValid x v valid = record {
    some_list = valid.some_list;
    same_count = valid.same_count;
    placed = λ k i ne. renew-placed x v k i valid ne;
    unique = λ i.
        ground (arith, valid.unique i, renew-IsUnique t (key v) v (x.lists i) (valid.unique i));
  }

  pub renewed_in-find :
      (x : Bucket V) (v : V) (k : K)
      → find_in t k (list_of t b f (renewed_in t b f x v) k) ≡ (
          if equal (key v) k
          then assigned t v (find_in t k (list_of t b f x k))
          else find_in t k (list_of t b f x k))
  unfolding renewed_in find_in
  renewed_in-find x v k =
      ground (arith, equal_iff (key v) k, find_in-renew t (key v) k v (list_of t b f x k))

  -- One more element still fits.
  abbrev pub HasRoom : Bucket V → Type 0
  HasRoom x = (0 < f) × ((x.size + 1) * (f * f) ≤ 2 ^ 64)

  times_below : {m o : ℕ} (n : ℕ) → m < n * f → 0 < f → n * (f * f) ≤ o → m * f < o
  times_below {m = m} {o = o} n p q r =
      omega (arith, mul-lt-mul_of_pos_right {m = m} {n = n * f} {k = f} p q, mul_assoc n f f)

  pub pushed-CanGrow :
      (x : Bucket V) (v : V)
      → HasRoom x
      → should_resize t b f (pushed t b f x v) ≡ true
      → CanGrow t b f (pushed t b f x v)
  unfolding pushed
  pushed-CanGrow x v (pos, room) grows = (
    pos,
    times_below {m = x.capacity} (x.size + 1)
        (ground
          (arith, mul-le-mul_right {m = (x.size + 1) % 2 ^ 64} {n = x.size + 1} f (omega arith)))
        pos room,
  )
