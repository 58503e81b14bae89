-- ===== src/Platform/SharedMemory.antt =====
-- The POSIX part of lib/hope_thread/platform/shared_memory.h, as it is on Linux. The system's calls are
-- parameters over a state of the system, `W`.
pub mod Descriptors
pub mod Outcome
mod Tests
use hope_threading.Prelude.{
  ℕ, zero, suc, ◌+◌, Bool, true, false, ◌&&◌, ◌||◌, not, Option, none, some, List, [], ◌∷◌, ltb,
  ◌==◌, if◌then◌else◌,
}
use hope_threading.Threads.{update}

-- The calls, with the new state first. A descriptor, a size or an address is given on success; the
-- names are lists of characters. `set_invalid` is `errno = EINVAL`.
pub record Os (W : Type 0) : Type 0 where
  pub shm_open : List ℕ → W → W × Option ℕ
  pub fstat : ℕ → W → W × Option ℕ
  pub ftruncate : ℕ → ℕ → W → W × Bool
  pub mmap : ℕ → ℕ → W → W × Option ℕ
  pub munmap : ℕ → ℕ → W → W
  pub close : ℕ → W → W
  pub shm_unlink : List ℕ → W → W × Bool
  pub set_invalid : W → W

-- `shared_memory_segment`; `none` is a null pointer, or the descriptor -1.
pub record Segment : Type 0 where
  pub data_at : Option ℕ
  pub size : ℕ
  pub fd : Option ℕ
  pub created_new : Bool

abbrev pub slash : ℕ
slash = 47

abbrev has_slash : List ℕ → Bool
has_slash [] = false
has_slash (c ∷ cs) = (c == slash) || has_slash cs

-- `is_valid_shared_memory_name`, of a name that is not null.
abbrev pub is_valid_shared_memory_name : List ℕ → Bool
is_valid_shared_memory_name [] = false
is_valid_shared_memory_name (c ∷ cs) = (c == slash) && not (has_slash cs)

-- What a call leaves: the system, what `out` points to, and the result.
pub record Returned (W : Type 0) : Type 0 where
  pub world : W
  pub out : Segment
  pub done : Bool

module _ {W : Type 0} (os : Os W) where
  open os use {shm_open, fstat, ftruncate, mmap, munmap, close, shm_unlink, set_invalid}

  abbrev fail : Segment → W → Returned W
  fail out w = record { world = w; out = out; done = false }

  unfoldable pub map_fd : ℕ → ℕ → Segment → W → Returned W
  map_fd fd map_size out w =
      let (w', p) = mmap fd map_size w in
      elim p [
        | none ↦ fail out w'
        | some a ↦ record {
          world = w';
          out = record out { data_at = some a; size = map_size; fd = some fd };
          done = true;
        }
      ]

  -- The end of a round of the loop, from the call of `map_fd`.
  unfoldable pub finish : ℕ → ℕ → Bool → Segment → W → Returned W
  finish fd size created out w =
      let mapped = map_fd fd size out w in
      if mapped.done
      then record mapped { out = record mapped.out { created_new = created } }
      else record mapped { world = close fd mapped.world }

  -- A round from the test of the size that `fstat` gave; `again` is the rest of the loop.
  unfoldable pub sized : List ℕ → ℕ → ℕ → (W → Returned W) → Segment → ℕ → ℕ → W → Returned W
  sized name size attempt again out fd st_size w =
      if st_size == 0
      then (let (w', truncated) = ftruncate fd size w in
          if truncated then finish fd size true out w' else fail out (close fd w'))
      else if ltb st_size size
      then (if attempt == 0
          then again (shm_unlink name (close fd w)).0
          else fail out (set_invalid (close fd w)))
      else finish fd size false out w

  -- A round from the test of the descriptor.
  unfoldable pub opened : List ℕ → ℕ → ℕ → (W → Returned W) → Segment → Option ℕ → W → Returned W
  opened name size attempt again out none w = fail out w
  opened name size attempt again out (some fd) w =
      let (w', st_size) = fstat fd w in
      elim st_size [
        | none ↦ fail out (close fd w')
        | some n ↦ sized name size attempt again out fd n w'
      ]

  -- The loop, by the number of rounds left.
  unfoldable pub rounds : ℕ → ℕ → List ℕ → ℕ → Segment → W → Returned W
  rounds zero attempt name size out w = fail out w
  rounds (suc left) attempt name size out w =
      let (w', fd) = shm_open name w in
      opened name size attempt (rounds left (attempt + 1) name size out) out fd w'

  -- A null name or a null `out` returns false at once; here both are given.
  unfoldable pub create_or_open_shared_memory : List ℕ → ℕ → Segment → W → Returned W
  create_or_open_shared_memory name size_bytes out w =
      if size_bytes == 0
      then fail out w
      else if not (is_valid_shared_memory_name name)
      then fail out (set_invalid w)
      else rounds 2 0 name size_bytes out w

  abbrev pub unmapped : Option ℕ → ℕ → W → W
  unmapped none size w = w
  unmapped (some a) size w = if ltb 0 size then munmap a size w else w

  abbrev closed : Option ℕ → W → W
  closed none w = w
  closed (some fd) w = close fd w

  unfoldable pub close_shared_memory : Segment → W → W × Segment
  close_shared_memory seg w = (
    closed seg.fd (unmapped seg.data_at seg.size w),
    record { data_at = none; size = 0; fd = none; created_new = false },
  )

  pub unlink_shared_memory : List ℕ → W → W × Bool
  unlink_shared_memory name w = shm_unlink name w
