-- ===== src/Platform/SharedMemory/Tests.antt =====
-- A system with one object of 16 bytes, and the theorems at its calls.
use hope_threading.Prelude.{
  ℕ, ◌+◌, ◌≡◌, refl, Bool, true, false, ◌&&◌, none, some, [], ◌∷◌, arith, ltb,
}
use hope_threading.Threads.{update}
use hope_threading.Platform.SharedMemory.{
  rounds, opened, sized, finish, map_fd, Os, Segment, create_or_open_shared_memory,
}
use hope_threading.Platform.SharedMemory.Descriptors.{Descriptors}
use hope_threading.Platform.SharedMemory.Outcome.{Outcome, create_keeps_descriptors}

-- The next descriptor, those that are in use, and the object's size.
record World : Type 0 where
  next : ℕ
  used : ℕ → Bool
  stored : ℕ

abbrev small_os : Os World
small_os = record {
  shm_open =
      λ name w. (record w { next = w.next + 1; used = update w.used w.next true }, some w.next);
  fstat = λ fd w. (w, some w.stored);
  ftruncate = λ fd n w. (record w { stored = n }, true);
  mmap = λ fd n w. (w, some 4096);
  munmap = λ a n w. w;
  close = λ fd w. record w { used = update w.used fd false };
  shm_unlink = λ name w. (record w { stored = 0 }, true);
  set_invalid = λ w. w;
}

small_fds : Descriptors small_os
small_fds = record {
  is_open = λ d w. ltb d w.next && w.used d;
  open_new = λ name w fd e. ground (arith, e);
  shm_open-open = λ name w fd d e. ground (arith, e);
  shm_open-fails = λ name w d e. ground (arith, e);
  close-open = λ w fd d. ground arith;
  fstat-open = λ w fd d. refl;
  ftruncate-open = λ w fd n d. refl;
  mmap-open = λ w fd n d. refl;
  munmap-open = λ w a n d. refl;
  shm_unlink-open = λ name w d. refl;
  set_invalid-open = λ w d. refl;
}

abbrev started : World
started = record { next = 3; used = λ d. true; stored = 16 }

abbrev empty_segment : Segment
empty_segment = record { data_at = none; size = 0; fd = none; created_new = false }

-- The object is too small for 64 bytes: the second round makes a new one.
replaced :
    (create_or_open_shared_memory small_os (47 ∷ 97 ∷ []) 64 empty_segment started).out
    ≡ record { data_at = some 4096; size = 64; fd = some 4; created_new = true }
unfolding create_or_open_shared_memory rounds opened sized finish map_fd
replaced = refl

create_keeps_descriptors_example :
    Outcome small_os small_fds 64 empty_segment started
      (create_or_open_shared_memory small_os (47 ∷ 97 ∷ []) 64 empty_segment started)
create_keeps_descriptors_example =
    create_keeps_descriptors small_os small_fds (47 ∷ 97 ∷ []) 64 empty_segment started
