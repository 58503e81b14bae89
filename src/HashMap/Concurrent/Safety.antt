-- ===== src/HashMap/Concurrent/Safety.antt =====
-- What `hash_storage` promises to calls that overlap.
use hope_threading.Prelude.{ℕ, ◌<◌, ◌≡◌, Bool, arith, ℕ_discrete}
use hope_threading.Threads.{le-total_two, System, Reach, turn}
use hope_threading.HashMap.Traits.{Traits}
use hope_threading.HashMap.Storage.History.{expected}
use hope_threading.HashMap.Concurrent.{
  Memory, Place, Request, find_locked, move, idle, found, find_section,
}
use hope_threading.HashMap.Concurrent.Invariant.{Sizes, resizes}
use hope_threading.HashMap.Concurrent.Reached.{initial, Reach-Inv}

module _ {K V : Type 0} (t : Traits K V) (b f : ℕ) (can_allocate : ℕ → Bool)
    (sizes : Sizes f can_allocate) {n : ℕ} {s : System (Memory K V) (Place K V)}
    (r : Reach (move t b f can_allocate) n (initial t b f can_allocate sizes n) s) where
  -- Calls that overlap are as calls one after another, and no growth loses one: in each reachable state of
  -- any number of threads, however many of them are resizing buckets, a key leads under the guard of its
  -- bucket to what the calls say whose sections have been, in their order; and that is what a thread in
  -- the section of `find` returns. Lists that can be allocated are not too many to be counted by a machine
  -- word after one more growth.
  pub finds_what_calls_say :
      ((k : K) → find_locked t b f s.mem k ≡ expected t b f s.mem.calls k)
      × ((i : ℕ) (k : K) (c : Request K V)
          → s.pc i ≡ find_section k
          → (turn (move t b f can_allocate) i c s).pc i
            ≡ idle (found (expected t b f s.mem.calls k)))
  unfolding move
  finds_what_calls_say =
      let holds = (Reach-Inv t b f can_allocate sizes n r).sound.contents in
      (holds, λ i k c at. ground (arith, at, holds k))

  -- One thread resizes a bucket: of the threads from the exchange of its flag to the store that gives it
  -- back, no two are in the same bucket.
  pub one_resizer :
      (i j k : ℕ) → i < n → j < n → resizes k (s.pc i) ≡ 1 → resizes k (s.pc j) ≡ 1 → i ≡ j
  one_resizer i j k hi hj mine hers = elim (ℕ_discrete i j) [
    | yes e ↦ e
    | no ne ↦ absurd (
        ground (
          arith,
          le-total_two (resizes k) n s.pc i j hi hj ne,
          (Reach-Inv t b f can_allocate sizes n r).claimed k,
          mine,
          hers,
        ))
  ]
