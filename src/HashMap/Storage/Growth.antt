-- ===== src/HashMap/Storage/Growth.antt =====
-- `resize`: the grown bucket is well formed and holds what it held.
use hope_threading.Prelude.{
  ℕ, zero, suc, ◌*◌, ◌%◌, ◌^◌, ◌<◌, ◌≡◌, refl, sym, ◌∙◌, subst, ◌≢◌, none, List, arith, ltb,
  if◌then◌else◌,
}
use native.Mathlib.Nat.{mul-pos}
use hope_threading.HashMap.Traits.{Traits}
use hope_threading.HashMap.Lists.{find_in, IsUnique}
use hope_threading.HashMap.Storage.{Bucket, rehash, resize, list_of}
use hope_threading.HashMap.Storage.Rehash.{push_all-find, push_all-elsewhere, push_all-IsUnique}

module _ {K V : Type 0} (t : Traits K V) (b f : ℕ) where
  open t use {key, hash, equal, equal_iff}

  -- Every key stands in its list only, and once.
  pub record IsValid (x : Bucket V) : Type 0 where
    pub some_list : 0 < x.count
    pub same_count : x.capacity ≡ x.count
    pub placed : (k : K) (i : ℕ) → i ≢ hash k % x.count → find_in t k (x.lists i) ≡ none
    pub unique : (i : ℕ) → IsUnique t (x.lists i)

  pub rehash-elsewhere :
      (cap n : ℕ) (lists : ℕ → List V) (k : K) (i : ℕ)
      → i ≢ hash k % cap
      → find_in t k (rehash t b f cap n lists i) ≡ none
  unfolding rehash find_in
  rehash-elsewhere cap zero lists k i ne = refl
  rehash-elsewhere cap (suc n) lists k i ne =
      push_all-elsewhere t b f cap (lists n) (rehash t b f cap n lists) k i ne
      ∙ rehash-elsewhere cap n lists k i ne

  -- The first `n` lists have been copied, so a key is found if its list is among them.
  pub rehash-find :
      (x : Bucket V) (valid : IsValid x) (cap n : ℕ) (k : K)
      → find_in t k (rehash t b f cap n x.lists (hash k % cap))
        ≡ (if ltb (hash k % x.count) n then find_in t k (x.lists (hash k % x.count)) else none)
  unfolding rehash find_in
  rehash-find x valid cap zero k = ground arith
  rehash-find x valid cap (suc n) k = ground (
    arith,
    push_all-find t b f cap (x.lists n) (rehash t b f cap n x.lists) k (valid.unique n),
    rehash-find x valid cap n k,
    valid.placed k n,
  )

  pub rehash-IsUnique :
      (x : Bucket V) (valid : IsValid x) (cap n : ℕ) (i : ℕ)
      → IsUnique t (rehash t b f cap n x.lists i)
  unfolding rehash find_in
  rehash-IsUnique x valid cap zero i = tt
  rehash-IsUnique x valid cap (suc n) i =
      push_all-IsUnique t b f cap (x.lists n) (rehash t b f cap n x.lists) (valid.unique n)
        (rehash-IsUnique x valid cap n)
        (λ k. ground (arith, valid.placed k n, rehash-find x valid cap n k)) i

  -- The capacity times the factor is a machine word, and not 0.
  abbrev pub CanGrow : Bucket V → Type 0
  CanGrow x = (0 < f) × (x.capacity * f < 2 ^ 64)

  resize-count : (x : Bucket V) → IsValid x → CanGrow x → (resize t b f x).count ≡ x.count * f
  unfolding resize
  resize-count x valid grows = ground (arith, valid.same_count)

  pub resize-IsValid : (x : Bucket V) → IsValid x → CanGrow x → IsValid (resize t b f x)
  unfolding resize
  resize-IsValid x valid grows = record {
    some_list =
        subst (λ n. 0 < n) (sym (resize-count x valid grows)) (mul-pos valid.some_list grows.0);
    same_count = refl;
    placed = λ k i ne. rehash-elsewhere (x.capacity * f % 2 ^ 64) x.count x.lists k i ne;
    unique = rehash-IsUnique x valid (x.capacity * f % 2 ^ 64) x.count;
  }

  pub resize-find :
      (x : Bucket V) (k : K)
      → IsValid x
      → find_in t k (list_of t b f (resize t b f x) k) ≡ find_in t k (list_of t b f x k)
  unfolding resize
  resize-find x k valid =
      rehash-find x valid (x.capacity * f % 2 ^ 64) x.count k ∙ ground (arith, valid.some_list)
