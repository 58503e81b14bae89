-- ===== src/HashMap/Concurrent.antt =====
-- `hash_storage` of lib/hope_thread/containers/hashmap/hash_storage.h under calls that overlap. A section
-- under a bucket's `guard` is one step: an exclusive section excludes all others, and shared ones change
-- nothing that another shared one reads. The accesses outside, of `resizing` and `capacity`, are steps.
mod Invariant
mod Sections
mod Effects
mod Reached
pub mod Safety
mod Tests
use hope_threading.Prelude.{
  ℕ, ◌+◌, ◌-◌, ◌*◌, ◌%◌, ◌^◌, Bool, true, false, Option, none, some, List, [], ◌∷◌, ◌==◌,
  if◌then◌else◌, length,
}
use hope_threading.Threads.{update}
use hope_threading.HashMap.Traits.{Traits}
use hope_threading.HashMap.Lists.{find_in, remove_in}
use hope_threading.HashMap.Storage.{
  Bucket, new_bucket, list_of, renewed_in, pushed, should_resize, rehash, Call, emplace_call,
  remove_call,
}

-- A bucket with its flag.
pub record SharedBucket (V : Type 0) : Type 0 where
  pub bucket : Bucket V
  pub resizing : Bool

-- `m_storage` and `m_size`. `calls` is no part of the code: the calls that have changed something, the
-- last one first, in the order of their sections.
pub record Memory (K V : Type 0) : Type 0 where
  pub buckets : ℕ → SharedBucket V
  pub total_size : ℕ
  pub calls : List (Call K V)

-- What a thread's last call has returned.
pub data Answer (V : Type 0) : Type 0 where
  nothing : Answer V
  emplaced : Bool → Answer V
  found : Option V → Answer V
  obtained : V → Bool → Answer V

-- Where a thread stands: between two calls, at the section of one, or in `resize` of a bucket: at the
-- exchange of `resizing`, at the load of the capacity, at the new lists, at the copy, at the swap, at the
-- store of the capacity and of `resizing`. A thread whose new lists cannot be allocated has `thrown`.
pub data Place (K V : Type 0) : Type 0 where
  idle : Answer V → Place K V
  emplace_section : V → Place K V
  find_section : K → Place K V
  obtain_section : V → Place K V
  remove_section : K → Place K V
  resize_claim : ℕ → Place K V
  resize_load : ℕ → Place K V
  resize_allocate : ℕ → ℕ → Place K V
  resize_copy : ℕ → ℕ → Place K V
  resize_swap : ℕ → ℕ → (ℕ → List V) → Place K V
  resize_store : ℕ → ℕ → Place K V
  resize_release : ℕ → Place K V
  thrown : ℕ → Place K V

-- What an idle thread calls.
pub data Request (K V : Type 0) : Type 0 where
  change : Call K V → Request K V
  find_request : K → Request K V
  obtain_request : V → Request K V

unfoldable pub new_memory : {K V : Type 0} → Memory K V
new_memory = record {
  buckets = λ _. record { bucket = new_bucket; resizing = false };
  total_size = 0;
  calls = [];
}

module _ {K V : Type 0} (t : Traits K V) (buckets_count resize_factor : ℕ) where
  open t use {key, hash}

  unfoldable pub enter : Request K V → Place K V
  enter (change (emplace_call v)) = emplace_section v
  enter (change (remove_call k)) = remove_section k
  enter (find_request k) = find_section k
  enter (obtain_request v) = obtain_section v

  abbrev pub place_of : K → ℕ
  place_of k = hash k % buckets_count

  abbrev pub bucket_of : Memory K V → K → Bucket V
  bucket_of m k = (m.buckets (place_of k)).bucket

  abbrev pub with_bucket : Memory K V → ℕ → Bucket V → Memory K V
  with_bucket m i b = record m {
    buckets = update m.buckets i (record (m.buckets i) { bucket = b });
  }

  abbrev pub with_flag : Memory K V → ℕ → Bool → Memory K V
  with_flag m i flag = record m {
    buckets = update m.buckets i (record (m.buckets i) { resizing = flag });
  }

  -- `find_locked` under the guard of the key's bucket
  abbrev pub find_locked : Memory K V → K → Option V
  find_locked m k = find_in t k (list_of t buckets_count resize_factor (bucket_of m k) k)

  -- The section of `emplace`, by what its search finds.
  unfoldable pub entered : Memory K V → V → Option V → Memory K V × Place K V
  entered m v (some old) = (
    record (with_bucket m (place_of (key v))
        (renewed_in t buckets_count resize_factor (bucket_of m (key v)) v)) {
          calls = emplace_call v ∷ m.calls;
        },
    idle (emplaced false),
  )
  entered m v none =
      let b = pushed t buckets_count resize_factor (bucket_of m (key v)) v in
      (
        record (with_bucket m (place_of (key v)) b) {
          total_size = (m.total_size + 1) % 2 ^ 64;
          calls = emplace_call v ∷ m.calls;
        },
        if should_resize t buckets_count resize_factor b
            then resize_claim (place_of (key v))
            else idle (emplaced true),
      )

  -- The bucket after the section of `remove`.
  abbrev pub removed : Bucket V → K → Bucket V
  removed b k = record b {
    lists =
        update b.lists (hash k % b.count)
          (remove_in t k (list_of t buckets_count resize_factor b k));
    changed_while_resize = true;
  }

  unfoldable pub remove_locked : Memory K V → K → Memory K V
  remove_locked m k =
      let b = bucket_of m k in
      record (with_bucket m (place_of k) (removed b k)) {
        total_size =
            if length (list_of t buckets_count resize_factor b k)
              == length (list_of t buckets_count resize_factor (removed b k) k)
            then m.total_size
            else (m.total_size + 2 ^ 64 - 1) % 2 ^ 64;
        calls = remove_call k ∷ m.calls;
      }

  unfoldable pub answer_obtain : V → Option V → Place K V
  answer_obtain v none = idle (obtained v false)
  answer_obtain v (some old) = idle (obtained (t.assign v old) true)

  -- The exchange at the beginning of `resize`.
  unfoldable pub claim : Memory K V → ℕ → Memory K V × Place K V
  claim m i =
      if (m.buckets i).resizing
      then (m, idle (emplaced true))
      else (with_flag m i true, resize_load i)

  -- The section of the swap.
  unfoldable pub swapped : Memory K V → ℕ → ℕ → (ℕ → List V) → Memory K V × Place K V
  swapped m i capacity lists =
      let b = (m.buckets i).bucket in
      if b.changed_while_resize
      then (m, resize_allocate i capacity)
      else (with_bucket m i (record b { lists = lists; count = capacity }), resize_store i capacity)

-- `can_allocate` says for which numbers of lists `std::vector::resize` returns.
module _ {K V : Type 0} (t : Traits K V) (buckets_count resize_factor : ℕ)
    (can_allocate : ℕ → Bool) where
  open t use {key}

  unfoldable pub move : Request K V → ℕ → Memory K V → Place K V → Memory K V × Place K V
  move c j m (idle a) = (m, enter t buckets_count resize_factor c)
  move c j m (emplace_section v) =
      entered t buckets_count resize_factor m v
        (find_locked t buckets_count resize_factor m (key v))
  move c j m (find_section k) = (m, idle (found (find_locked t buckets_count resize_factor m k)))
  move c j m (obtain_section v) = (
    m,
    answer_obtain t buckets_count resize_factor v
        (find_locked t buckets_count resize_factor m (key v)),
  )
  move c j m (remove_section k) = (remove_locked t buckets_count resize_factor m k, idle nothing)
  move c j m (resize_claim i) = claim t buckets_count resize_factor m i
  move c j m (resize_load i) =
      (m, resize_allocate i ((m.buckets i).bucket.capacity * resize_factor % 2 ^ 64))
  move c j m (resize_allocate i capacity) =
      (m, if can_allocate capacity then resize_copy i capacity else thrown i)
  move c j m (resize_copy i capacity) =
      let b = (m.buckets i).bucket in
      (
        with_bucket t buckets_count resize_factor m i (record b { changed_while_resize = false }),
        resize_swap i capacity (rehash t buckets_count resize_factor capacity b.count b.lists),
      )
  move c j m (resize_swap i capacity lists) =
      swapped t buckets_count resize_factor m i capacity lists
  move c j m (resize_store i capacity) = (
    with_bucket t buckets_count resize_factor m i
        (record ((m.buckets i).bucket) { capacity = capacity }),
    resize_release i,
  )
  move c j m (resize_release i) =
      (with_flag t buckets_count resize_factor m i false, idle (emplaced true))
  move c j m (thrown i) = (m, thrown i)
