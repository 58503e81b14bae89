-- ===== src/HashMap/Concurrent/Invariant.antt =====
-- What holds of the buckets in each reachable state.
use hope_threading.Prelude.{
  ℕ, ◌*◌, ◌%◌, ◌^◌, ◌<◌, ◌≡◌, ◌≢◌, ite, Bool, true, false, none, List, ℕ_discrete,
}
use hope_threading.HashMap.Traits.{Traits}
use hope_threading.HashMap.Lists.{find_in, IsUnique}
use hope_threading.HashMap.Storage.{Bucket}
use hope_threading.HashMap.Storage.Growth.{IsValid}
use hope_threading.HashMap.Concurrent.{
  Memory, Place, resize_load, resize_allocate, resize_copy, resize_swap, resize_store,
  resize_release, thrown,
}

abbrev on : ℕ → ℕ → ℕ
on i j = ite (ℕ_discrete i j) 1 0

module _ {K V : Type 0} where
  -- Whether a thread resizes bucket `i`.
  abbrev pub resizes : ℕ → Place K V → ℕ
  resizes i (resize_load j) = on i j
  resizes i (resize_allocate j c) = on i j
  resizes i (resize_copy j c) = on i j
  resizes i (resize_swap j c l) = on i j
  resizes i (resize_store j c) = on i j
  resizes i (resize_release j) = on i j
  resizes i (thrown j) = on i j
  resizes i _ = 0

-- The lists of new buckets are not too many to be counted once more.
abbrev pub Sizes : ℕ → (ℕ → Bool) → Type 0
Sizes f can_allocate = (0 < f) × (f < 2 ^ 64) × ((c : ℕ) → can_allocate c ≡ true → c * f < 2 ^ 64)

module _ {K V : Type 0} (t : Traits K V) (b f : ℕ) where
  open t use {hash}

  -- A bucket whose keys stand each in its list, and once; the capacity is still to be stored.
  abbrev pub Placed : Bucket V → Type 0
  Placed x = IsValid t b f (record x { capacity = x.count })

  -- New lists that hold what the bucket holds.
  pub record Copies (x : Bucket V) (capacity : ℕ) (lists : ℕ → List V) : Type 0 where
    pub placed : (k : K) (i : ℕ) → i ≢ hash k % capacity → find_in t k (lists i) ≡ none
    pub unique : (i : ℕ) → IsUnique t (lists i)
    pub same :
        (k : K) → find_in t k (lists (hash k % capacity)) ≡ find_in t k (x.lists (hash k % x.count))

  abbrev pub Fits : ℕ → Type 0
  Fits capacity = (0 < capacity) × (capacity * f < 2 ^ 64)

  -- What a place says of the bucket that its thread resizes.
  abbrev pub At : Memory K V → Place K V → Type 0
  At m (resize_allocate i capacity) = 0 < capacity
  At m (resize_copy i capacity) = Fits capacity
  At m (resize_swap i capacity lists) =
      Fits capacity
      × ((m.buckets i).bucket.changed_while_resize ≡ false
          → Copies (m.buckets i).bucket capacity lists)
  At m (resize_store i capacity) = Fits capacity
  At m _ = Unit
