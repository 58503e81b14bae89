-- ===== src/Platform/FileMapping.antt =====
-- The Windows part of lib/hope_thread/platform/shared_memory.h. The system's calls are parameters over a
-- state of the system, `W`.
pub mod Resources
pub mod Outcome
pub mod Pages
mod Tests
use hope_threading.Prelude.{
  ℕ, ◌/◌, ◌%◌, ◌^◌, Bool, true, false, not, Option, none, some, List, ◌==◌, if◌then◌else◌,
}

-- The calls, with the new state first. A handle, an address or the size of a region is given on success;
-- the names are lists of characters. `create_file_mapping` takes the size by its halves, and
-- `already_exists` says whether the last error is ERROR_ALREADY_EXISTS. `set_invalid` is
-- `SetLastError(ERROR_INVALID_PARAMETER)`.
pub record Os (W : Type 0) : Type 0 where
  pub clear_error : W → W
  pub create_file_mapping : ℕ → ℕ → List ℕ → W → W × Option ℕ
  pub already_exists : W → Bool
  pub map_view : ℕ → ℕ → W → W × Option ℕ
  pub virtual_query : ℕ → W → W × Option ℕ
  pub unmap_view : ℕ → W → W
  pub close_handle : ℕ → W → W
  pub set_invalid : W → W

-- `shared_memory_segment`; `none` is a null pointer.
pub record Segment : Type 0 where
  pub data_at : Option ℕ
  pub size : ℕ
  pub mapping : Option ℕ
  pub created_new : Bool

-- What a call leaves: the system, what `out` points to, and the result.
pub record Returned (W : Type 0) : Type 0 where
  pub world : W
  pub out : Segment
  pub done : Bool

module _ {W : Type 0} (os : Os W) where
  open os use {
    clear_error, create_file_mapping, already_exists, map_view, virtual_query, unmap_view,
    close_handle, set_invalid,
  }

  abbrev fail : Segment → W → Returned W
  fail out w = record { world = w; out = out; done = false }

  -- The end of the call, from the test of `view`.
  unfoldable pub finish : ℕ → Bool → ℕ → Segment → Option ℕ → W → Returned W
  finish mapping created size out none w = fail out (close_handle mapping w)
  finish mapping created size out (some view) w = record {
    world = w;
    out = record {
      data_at = some view;
      size = size;
      mapping = some mapping;
      created_new = created;
    };
    done = true;
  }

  -- The size of a view of a mapping that existed, by what `VirtualQuery` has found.
  unfoldable pub compared : ℕ → ℕ → Segment → ℕ → Option ℕ → W → Returned W
  compared mapping size out view none w = finish mapping false size out none (unmap_view view w)
  compared mapping size out view (some region) w =
      if region == size
      then finish mapping false region out (some view) w
      else finish mapping false region out none (set_invalid (unmap_view view w))

  unfoldable pub queried : ℕ → ℕ → Segment → Option ℕ → W → Returned W
  queried mapping size out none w = finish mapping false size out none w
  queried mapping size out (some view) w =
      let (w', region) = virtual_query view w in compared mapping size out view region w'

  -- The call from the test of the mapping.
  unfoldable pub opened : ℕ → Segment → Option ℕ → W → Returned W
  opened size out none w = fail out w
  opened size out (some mapping) w =
      if already_exists w
      then (let (w', view) = map_view mapping 0 w in queried mapping size out view w')
      else (let (w', view) = map_view mapping size w in finish mapping true size out view w')

  -- A null name or a null `out` returns false at once; here both are given.
  unfoldable pub create_or_open_shared_memory : List ℕ → ℕ → Segment → W → Returned W
  create_or_open_shared_memory name size_bytes out w =
      if size_bytes == 0
      then fail out w
      else (let (w', mapping) =
            create_file_mapping (size_bytes / 2 ^ 32 % 2 ^ 32) (size_bytes % 2 ^ 32) name
              (clear_error w) in
          opened size_bytes out mapping w')

  abbrev pub unmapped : Option ℕ → W → W
  unmapped none w = w
  unmapped (some view) w = unmap_view view w

  abbrev pub closed : Option ℕ → W → W
  closed none w = w
  closed (some mapping) w = close_handle mapping w

  unfoldable pub close_shared_memory : Segment → W → W × Segment
  close_shared_memory seg w = (
    closed seg.mapping (unmapped seg.data_at w),
    record { data_at = none; size = 0; mapping = none; created_new = false },
  )

  pub unlink_shared_memory : List ℕ → W → W × Bool
  unlink_shared_memory name w = (w, true)
