-- ===== src/HashMap/Storage.antt =====
-- `hash_storage` of lib/hope_thread/containers/hashmap/hash_storage.h, a call at a time: buckets, each
-- a vector of collision lists that grows. The locks are left out, as no two calls overlap.
pub mod Rehash
pub mod Growth
pub mod Lookup
pub mod Contents
pub mod History
pub mod Size
mod Tests
use hope_threading.Prelude.{
  ℕ, zero, suc, ◌+◌, ◌-◌, ◌*◌, ◌%◌, ◌^◌, Bool, true, false, Option, none, some, List, [], ◌∷◌, ltb,
  ◌==◌, if◌then◌else◌, length,
}
use hope_threading.Threads.{update}
use hope_threading.HashMap.Traits.{Traits}
use hope_threading.HashMap.Lists.{find_in, renew, remove_in}

-- `lockable_bucket`: the vector by its lists and its length, and the other fields. `guard` and
-- `resizing` serve threads that overlap.
pub record Bucket (V : Type 0) : Type 0 where
  pub lists : ℕ → List V
  pub count : ℕ
  pub size : ℕ
  pub capacity : ℕ
  pub changed_while_resize : Bool

-- `m_storage` and `m_size`
pub record Storage (V : Type 0) : Type 0 where
  pub buckets : ℕ → Bucket V
  pub total_size : ℕ

-- A new bucket, with the one list that the constructor of `hash_storage` makes.
abbrev pub new_bucket : {V : Type 0} → Bucket V
new_bucket = record {
  lists = λ _. [];
  count = 1;
  size = 1;
  capacity = 1;
  changed_while_resize = true;
}

abbrev pub new_storage : {V : Type 0} → Storage V
new_storage = record { buckets = λ _. new_bucket; total_size = 0 }

-- The calls that change a storage.
pub data Call (K V : Type 0) : Type 0 where
  emplace_call : V → Call K V
  remove_call : K → Call K V

-- `buckets_count` and `resize_factor` are the template's parameters.
module _ {K V : Type 0} (t : Traits K V) (buckets_count resize_factor : ℕ) where
  open t use {key, hash}

  -- The copy of the elements in `resize`: of one list, and of the first `n` lists.
  unfoldable pub push_all : ℕ → List V → (ℕ → List V) → ℕ → List V
  push_all capacity [] new = new
  push_all capacity (v ∷ vs) new =
      let place = hash (key v) % capacity in push_all capacity vs (update new place (v ∷ new place))

  unfoldable pub rehash : ℕ → ℕ → (ℕ → List V) → ℕ → List V
  rehash capacity zero lists = λ _. []
  rehash capacity (suc n) lists = push_all capacity (lists n) (rehash capacity n lists)

  -- `resize`: with no other thread, the first round of its loop succeeds.
  unfoldable pub resize : Bucket V → Bucket V
  resize b =
      let capacity = b.capacity * resize_factor % 2 ^ 64 in
      record {
        lists = rehash capacity b.count b.lists;
        count = capacity;
        size = b.size;
        capacity = capacity;
        changed_while_resize = false;
      }

  -- The list that `emplace`, `find` and `remove` look at.
  abbrev pub list_of : Bucket V → K → List V
  list_of b k = b.lists (hash k % b.count)

  -- The element that `emplace` found is renewed.
  unfoldable pub renewed_in : Bucket V → V → Bucket V
  renewed_in b v =
      let place = hash (key v) % b.count in
      record b {
        lists = update b.lists place (renew t (key v) v (b.lists place));
        changed_while_resize = true;
      }

  -- `emplace_front` and the count of the bucket
  unfoldable pub pushed : Bucket V → V → Bucket V
  pushed b v =
      let place = hash (key v) % b.count in
      record b {
        lists = update b.lists place (v ∷ b.lists place);
        size = (b.size + 1) % 2 ^ 64;
        changed_while_resize = true;
      }

  -- `should_resize`
  abbrev pub should_resize : Bucket V → Bool
  should_resize b = ltb b.capacity (b.size * resize_factor % 2 ^ 64)

  -- What `emplace` does with its bucket, by what the search found, and whether the element is new.
  abbrev pub emplaced : Option V → Bucket V → V → Bucket V × Bool
  emplaced (some old) b v = (renewed_in b v, false)
  emplaced none b v = (if should_resize (pushed b v) then resize (pushed b v) else pushed b v, true)

  unfoldable pub emplace_in : Bucket V → V → Bucket V × Bool
  emplace_in b v = emplaced (find_in t (key v) (list_of b (key v))) b v

  unfoldable pub emplace : Storage V → V → Storage V × Bool
  emplace s v =
      let place = hash (key v) % buckets_count in
      let (b, is_new) = emplace_in (s.buckets place) v in
      (
        record {
          buckets = update s.buckets place b;
          total_size = if is_new then (s.total_size + 1) % 2 ^ 64 else s.total_size;
        },
        is_new,
      )

  -- `find`, by the element that the pointer leads to; `obtain` differs in what it does with it.
  unfoldable pub find : Storage V → K → Option V
  find s k = find_in t k (list_of (s.buckets (hash k % buckets_count)) k)

  -- `obtain`: the value with its key, renewed by what was found, and whether anything was.
  unfoldable pub obtain : Storage V → V → V × Bool
  unfolding find
  obtain s v = elim (find s (key v)) [ none ↦ (v, false) | some found ↦ (t.assign v found, true) ]

  -- `remove` calls the equality with an element and a key; here it compares the element's key.
  unfoldable pub remove : Storage V → K → Storage V
  remove s k =
      let place = hash k % buckets_count in
      let b = s.buckets place in
      let kept = remove_in t k (list_of b k) in
      record {
        buckets = update s.buckets place (record b {
          lists = update b.lists (hash k % b.count) kept;
          changed_while_resize = true;
        });
        total_size =
            if length (list_of b k) == length kept
            then s.total_size
            else (s.total_size + 2 ^ 64 - 1) % 2 ^ 64;
      }

  unfoldable pub size : Storage V → ℕ
  size s = s.total_size

  -- One call after another, the last one first.
  unfoldable pub after_calls : List (Call K V) → Storage V
  after_calls [] = new_storage
  after_calls (emplace_call v ∷ calls) = (emplace (after_calls calls) v).0
  after_calls (remove_call k ∷ calls) = remove (after_calls calls) k
