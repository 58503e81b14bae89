-- ===== src/HashMap/ChunkedSet/Safety.antt =====
-- What `stl_chunked_set` promises to calls that overlap.
use hope_threading.Prelude.{ℕ, ◌%◌, ◌≡◌, ◌↔◌, ◌||◌, Bool, true, false, List, [], ◌∷◌, arith}
use hope_threading.Threads.{System, Reach, Reach-keeps, turn}
use hope_threading.HashMap.ChunkedSet.{
  StdSet, ChunkedSet, Place, Call, new_storage, emplace, find, move, idle, nothing, found,
  emplace_section, find_section,
}

-- What the standard says of `emplace` and `find`, for keys with a decided equality.
pub record Laws {K S : Type 0} (std : StdSet K S) : Type 0 where
  pub equal : K → K → Bool
  pub equal_iff : (j k : K) → (equal j k ≡ true) ↔ (j ≡ k)
  pub find-new : (k : K) → std.find k std.new ≡ false
  pub find-emplace : (j k : K) (s : S) → std.find k (std.emplace j s) ≡ equal j k || std.find k s

module _ {K S : Type 0} (std : StdSet K S) (laws : Laws std) (hash : K → ℕ) (chunk_count : ℕ) where
  open laws use {equal, equal_iff}

  abbrev pub has : K → List K → Bool
  has k [] = false
  has k (j ∷ js) = equal j k || has k js

  abbrev Agrees : ChunkedSet K S → Type 0
  Agrees m = (k : K) → find std hash chunk_count k m ≡ has k m.entered

  move-Agrees :
      (c : Call K) (i : ℕ) (m : ChunkedSet K S) (p : Place K)
      → Agrees m
      → Agrees (move std hash chunk_count c i m p).0
  unfolding move emplace find
  move-Agrees c i m (idle r) agrees k = agrees k
  move-Agrees c i m (emplace_section j) agrees k = ground (
    arith,
    agrees k,
    agrees j,
    laws.find-emplace j k (m.sets (hash j % chunk_count)),
    equal_iff j k,
  )
  move-Agrees c i m (find_section j) agrees k = agrees k

  -- The set as it is constructed, and no thread in a call.
  abbrev pub initial : System (ChunkedSet K S) (Place K)
  initial = record { mem = new_storage std hash chunk_count; pc = λ _. idle nothing }

  initial-Agrees : Agrees initial.mem
  unfolding find new_storage
  initial-Agrees k = laws.find-new k

  -- The chunks together are one set: in each reachable state of any number of threads, `find` of a key
  -- gives an element exactly if a section of `emplace` has entered the key, in whatever chunk the hash
  -- puts it; and that is what a thread in the section of `find` returns.
  pub chunks_are_one_set :
      {n : ℕ} {s : System (ChunkedSet K S) (Place K)}
      → Reach (move std hash chunk_count) n initial s
      → ((k : K) → find std hash chunk_count k s.mem ≡ has k s.mem.entered)
        × ((i : ℕ) (k : K) (c : Call K)
            → s.pc i ≡ find_section k
            → (turn (move std hash chunk_count) i c s).pc i ≡ idle (found (has k s.mem.entered)))
  unfolding move
  chunks_are_one_set {n} r =
      let agrees =
        Reach-keeps (move std hash chunk_count) n (λ m pc. Agrees m)
          (λ i c m pc lt h. move-Agrees c i m (pc i) h) {s = initial} initial-Agrees r in
      (agrees, λ i k c at. ground (arith, at, agrees k))
