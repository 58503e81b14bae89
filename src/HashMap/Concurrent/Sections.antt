-- ===== src/HashMap/Concurrent/Sections.antt =====
-- What each section leaves of a bucket.
use hope_threading.Prelude.{Bool, ℕ, ◌<◌, ◌≡◌, refl, ◌∙◌, none, List, arith}
use hope_threading.HashMap.Traits.{Traits}
use hope_threading.HashMap.Lists.{find_in}
use hope_threading.HashMap.Storage.{Bucket, list_of, rehash, pushed, renewed_in}
use hope_threading.HashMap.Storage.Growth.{rehash-find, rehash-IsUnique, rehash-elsewhere}
use hope_threading.HashMap.Storage.Lookup.{pushed-IsValid, renewed_in-IsValid}
use hope_threading.HashMap.Storage.Contents.{removed-IsValid}
use hope_threading.HashMap.Concurrent.{removed}
use hope_threading.HashMap.Concurrent.Invariant.{Placed, Copies}

module _ {K V : Type 0} (t : Traits K V) (b f : ℕ) where
  open t use {key, hash}

  pub rehash-Copies :
      (x : Bucket V) (capacity : ℕ)
      → Placed t b f x
      → Copies t b f x capacity (rehash t b f capacity x.count x.lists)
  rehash-Copies x capacity valid = record {
    placed = λ k i ne. rehash-elsewhere t b f capacity x.count x.lists k i ne;
    unique = rehash-IsUnique t b f (record x { capacity = x.count }) valid capacity x.count;
    same = λ k.
        rehash-find t b f (record x { capacity = x.count }) valid capacity x.count k
        ∙ ground (arith, valid.some_list);
  }

  pub Placed-flag :
      (x : Bucket V) (flag : Bool)
      → Placed t b f x
      → Placed t b f (record x { changed_while_resize = flag })
  Placed-flag x flag valid = record {
    some_list = valid.some_list;
    same_count = refl;
    placed = valid.placed;
    unique = valid.unique;
  }

  pub swapped-Placed :
      (x : Bucket V) (capacity : ℕ) (lists : ℕ → List V)
      → 0 < capacity
      → Copies t b f x capacity lists
      → Placed t b f (record x { lists = lists; count = capacity })
  swapped-Placed x capacity lists pos copies = record {
    some_list = pos;
    same_count = refl;
    placed = copies.placed;
    unique = copies.unique;
  }

  pub pushed-Placed :
      (x : Bucket V) (v : V)
      → Placed t b f x
      → find_in t (key v) (list_of t b f x (key v)) ≡ none
      → Placed t b f (pushed t b f x v)
  unfolding pushed
  pushed-Placed x v valid new = pushed-IsValid t b f (record x { capacity = x.count }) v valid new

  pub renewed_in-Placed :
      (x : Bucket V) (v : V) → Placed t b f x → Placed t b f (renewed_in t b f x v)
  unfolding renewed_in
  renewed_in-Placed x v valid = renewed_in-IsValid t b f (record x { capacity = x.count }) v valid

  pub removed-Placed : (x : Bucket V) (k : K) → Placed t b f x → Placed t b f (removed t b f x k)
  removed-Placed x k valid = removed-IsValid t b f (record x { capacity = x.count }) k valid
