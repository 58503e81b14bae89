-- ===== src/HashMap/ChunkedSet.antt =====
-- `stl_chunked_set` of lib/hope_thread/containers/hashmap/stl_chunked_set.h under calls that overlap. A
-- section under a chunk's `guard` is one step. `std::unordered_set` is a parameter.
pub mod Safety
mod Tests
use hope_threading.Prelude.{ℕ, ◌%◌, Bool, List, [], ◌∷◌}
use hope_threading.Threads.{update}

-- The set: new, with one more key, and whether `find` gives an iterator that is not the end.
pub record StdSet (K S : Type 0) : Type 0 where
  pub new : S
  pub emplace : K → S → S
  pub find : K → S → Bool

-- `m_storage`, by its sets. `entered` is no part of the code: the keys of the sections of `emplace`, the
-- last one first.
pub record ChunkedSet (K S : Type 0) : Type 0 where
  pub sets : ℕ → S
  pub entered : List K

-- What a thread's last call has returned, and where it stands.
pub data Result : Type 0 where
  nothing : Result
  found : Bool → Result

pub data Place (K : Type 0) : Type 0 where
  idle : Result → Place K
  emplace_section : K → Place K
  find_section : K → Place K

pub data Call (K : Type 0) : Type 0 where
  emplace_call : K → Call K
  find_call : K → Call K

-- `hash` is `std::hash`, `chunk_count` the template's parameter.
module _ {K S : Type 0} (std : StdSet K S) (hash : K → ℕ) (chunk_count : ℕ) where
  unfoldable pub new_storage : ChunkedSet K S
  new_storage = record { sets = λ _. std.new; entered = [] }

  abbrev pub chunk : K → ℕ
  chunk k = hash k % chunk_count

  enter : Call K → Place K
  enter (emplace_call k) = emplace_section k
  enter (find_call k) = find_section k

  unfoldable pub emplace : K → ChunkedSet K S → ChunkedSet K S
  emplace k m = record {
    sets = update m.sets (chunk k) (std.emplace k (m.sets (chunk k)));
    entered = k ∷ m.entered;
  }

  unfoldable pub find : K → ChunkedSet K S → Bool
  find k m = std.find k (m.sets (chunk k))

  unfoldable pub move : Call K → ℕ → ChunkedSet K S → Place K → ChunkedSet K S × Place K
  unfolding enter
  move c i m (idle r) = (m, enter c)
  move c i m (emplace_section k) = (emplace k m, idle nothing)
  move c i m (find_section k) = (m, idle (found (find k m)))
