-- ===== src/Platform/FileMapping/Tests.antt =====
-- A system that gives out handles and addresses in turn, and the theorems at its calls.
use hope_threading.Prelude.{
  ℕ, ◌+◌, ◌≡◌, refl, Bool, true, false, ◌&&◌, none, some, [], ◌∷◌, arith, ltb,
}
use hope_threading.Threads.{update}
use hope_threading.Platform.FileMapping.{
  finish, compared, queried, opened, Os, Segment, create_or_open_shared_memory,
}
use hope_threading.Platform.FileMapping.Resources.{Resources}
use hope_threading.Platform.FileMapping.Outcome.{Outcome, create_keeps_handles}
use hope_threading.Platform.FileMapping.Pages.{existing_fails}

-- The next handle, those that are in use, the next address, the views, and whether the one mapping is
-- there already; it has one page.
record World : Type 0 where
  next : ℕ
  used : ℕ → Bool
  free_at : ℕ
  viewed : ℕ → Bool
  exists : Bool

abbrev small_os : Os World
small_os = record {
  clear_error = λ w. w;
  create_file_mapping = λ high low name w.
      (record w { next = w.next + 1; used = update w.used w.next true }, some w.next);
  already_exists = λ w. w.exists;
  map_view = λ h n w. (
    record w { free_at = w.free_at + 1; viewed = update w.viewed w.free_at true },
    some w.free_at,
  );
  virtual_query = λ a w. (w, some 4096);
  unmap_view = λ a w. record w { viewed = update w.viewed a false };
  close_handle = λ h w. record w { used = update w.used h false };
  set_invalid = λ w. w;
}

small_held : Resources small_os
small_held = record {
  is_open = λ d w. ltb d w.next && w.used d;
  is_view = λ d w. ltb d w.free_at && w.viewed d;
  create-new = λ high low name w h e. ground (arith, e);
  create-open = λ high low name w h d e. ground (arith, e);
  create-fails = λ high low name w d e. ground (arith, e);
  create-view = λ high low name w a. refl;
  map-new = λ h n w a e. ground (arith, e);
  map-view = λ h n w a d e. ground (arith, e);
  map-fails = λ h n w d e. ground (arith, e);
  map-open = λ h n w d. refl;
  unmap-view = λ w a d. ground arith;
  unmap-open = λ w a d. refl;
  close-open = λ w h d. ground arith;
  close-view = λ w h d. refl;
  query-open = λ w a d. refl;
  query-view = λ w a d. refl;
  clear-open = λ w d. refl;
  clear-view = λ w d. refl;
  invalid-open = λ w d. refl;
  invalid-view = λ w d. refl;
}

abbrev started : World
started = record { next = 3; used = λ d. true; free_at = 7; viewed = λ d. false; exists = true }

abbrev empty_segment : Segment
empty_segment = record { data_at = none; size = 0; mapping = none; created_new = false }

-- A whole page can be opened.
opened_page :
    (create_or_open_shared_memory small_os (97 ∷ []) 4096 empty_segment started).out
    ≡ record { data_at = some 7; size = 4096; mapping = some 3; created_new = false }
unfolding create_or_open_shared_memory opened queried compared finish
opened_page = refl

create_keeps_handles_example :
    Outcome small_os small_held 4096 empty_segment started
      (create_or_open_shared_memory small_os (97 ∷ []) 4096 empty_segment started)
create_keeps_handles_example =
    create_keeps_handles small_os small_held (97 ∷ []) 4096 empty_segment started

existing_fails_example :
    (create_or_open_shared_memory small_os (97 ∷ []) 1000 empty_segment started).done ≡ false
existing_fails_example =
    existing_fails small_os 4096 (97 ∷ []) 1000 empty_segment started (λ a n w e. ground (arith, e))
      (omega arith) refl
