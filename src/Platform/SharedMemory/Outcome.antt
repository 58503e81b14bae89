-- ===== src/Platform/SharedMemory/Outcome.antt =====
-- No descriptor is lost, whatever the system answers.
use hope_threading.Prelude.{
  ℕ, zero, suc, ◌+◌, ◌≡◌, refl, sym, ap, ◌∙◌, ◌⊎◌, inl, inr, Bool, true, false, ◌||◌, Option, none,
  some, List, arith, ltb, ◌==◌, Bool-cases, Option-cases,
}
use hope_threading.Platform.SharedMemory.{
  unmapped, is_valid_shared_memory_name, Os, Segment, Returned, map_fd, finish, sized, opened,
  rounds, create_or_open_shared_memory, close_shared_memory,
}
use hope_threading.Platform.SharedMemory.Descriptors.{Descriptors}

module _ {W : Type 0} (os : Os W) (fds : Descriptors os) where
  open fds use {
    is_open, open_new, shm_open-open, shm_open-fails, close-open, fstat-open, ftruncate-open,
    mmap-open, munmap-open, shm_unlink-open, set_invalid-open,
  }

  -- The same descriptors are open.
  abbrev pub Same : W → W → Type 0
  Same w w' = (d : ℕ) → is_open d w' ≡ is_open d w

  -- `fd` is open, and what was open before, when `fd` was not.
  abbrev pub Opened : ℕ → W → W → Type 0
  Opened fd w w' = (is_open fd w ≡ false) × ((d : ℕ) → is_open d w' ≡ (d == fd) || is_open d w)

  -- A failure leaves `out` and the descriptors; a success has mapped `size` bytes of a new one.
  abbrev pub Outcome : ℕ → Segment → W → Returned W → Type 0
  Outcome size out w r =
      ((r.done ≡ false) × (r.out ≡ out) × Same w r.world)
      ⊎ ((r.done ≡ true)
          × (r.out.size ≡ size)
          × (fd : ℕ) × (r.out.fd ≡ some fd)
          × Opened fd w r.world)

  Same-trans : {w w' w'' : W} → Same w w' → Same w' w'' → Same w w''
  Same-trans a b d = b d ∙ a d

  Opened-Same : {fd : ℕ} {w w' w'' : W} → Opened fd w w' → Same w' w'' → Opened fd w w''
  Opened-Same a b = (a.0, λ d. b d ∙ a.1 d)

  close-Same : {fd : ℕ} {w w' : W} → Opened fd w w' → Same w (os.close fd w')
  close-Same {fd} {w} {w'} a d = ground (arith, close-open w' fd d, a.1 d, a.0)

  finish-Outcome :
      (fd size : ℕ) (created : Bool) (out : Segment) (w w' : W)
      → Opened fd w w'
      → Outcome size out w (finish os fd size created out w')
  unfolding finish map_fd
  finish-Outcome fd size created out w w' a =
      let still = Opened-Same a (mmap-open w' fd size) in
      elim (Option-cases (os.mmap fd size w').1) [
        | inl failed ↦ rw (failed, finish, map_fd) (inl (refl, refl, close-Same still))
        | inr (p, mapped) ↦ rw (mapped, finish, map_fd) (inr (refl, refl, fd, refl, still))
      ]

  -- What `again` does after the first round, from any state with the same descriptors.
  abbrev Again : ℕ → Segment → W → (W → Returned W) → Type 0
  Again size out w again = (w' : W) → Same w w' → Outcome size out w (again w')

  sized-Outcome :
      (name : List ℕ) (size attempt : ℕ) (again : W → Returned W) (out : Segment) (fd n : ℕ)
      (w w' : W)
      → Opened fd w w'
      → Again size out w again
      → Outcome size out w (sized os name size attempt again out fd n w')
  unfolding sized
  sized-Outcome name size attempt again out fd n w w' a rest = elim (Bool-cases (n == 0)) [
    | inl empty ↦ elim (Bool-cases (os.ftruncate fd size w').1) [
      | inl done ↦
          rw (empty, done)
            (finish-Outcome fd size true out w _ (Opened-Same a (ftruncate-open w' fd size)))
      | inr failed ↦
          rw (empty, failed)
            (inl (refl, refl, close-Same (Opened-Same a (ftruncate-open w' fd size))))
    ]
    | inr filled ↦ elim (Bool-cases (ltb n size)) [
      | inl small ↦ elim (Bool-cases (attempt == 0)) [
        | inl first ↦
            rw (filled, small, first)
              (rest _ (Same-trans (close-Same a) (shm_unlink-open name (os.close fd w'))))
        | inr second ↦
            rw (filled, small, second)
              (inl (refl, refl, Same-trans (close-Same a) (set_invalid-open (os.close fd w'))))
      ]
      | inr large ↦ rw (filled, large) (finish-Outcome fd size false out w w' a)
    ]
  ]

  opened-Outcome :
      (name : List ℕ) (size attempt : ℕ) (again : W → Returned W) (out : Segment) (fd : ℕ)
      (w w' : W)
      → Opened fd w w'
      → Again size out w again
      → Outcome size out w (opened os name size attempt again out (some fd) w')
  unfolding opened
  opened-Outcome name size attempt again out fd w w' a rest =
      let still = Opened-Same a (fstat-open w' fd) in
      elim (Option-cases (os.fstat fd w').1) [
        | inl failed ↦ rw (failed, opened) (inl (refl, refl, close-Same still))
        | inr (n, found) ↦
            rw (found, opened) (sized-Outcome name size attempt again out fd n w _ still rest)
      ]

  rounds-Outcome :
      (left attempt : ℕ) (name : List ℕ) (size : ℕ) (out : Segment) (w w' : W)
      → Same w w'
      → Outcome size out w (rounds os left attempt name size out w')
  unfolding rounds opened
  rounds-Outcome zero attempt name size out w w' same = inl (refl, refl, same)
  rounds-Outcome (suc left) attempt name size out w w' same =
      elim (Option-cases (os.shm_open name w').1) [
        | inl failed ↦
            rw failed (inl (refl, refl, Same-trans same (λ d. shm_open-fails name w' d failed)))
        | inr (fd, got) ↦ rw got (
            opened-Outcome name size attempt _ out fd w _
              (
                sym (same fd) ∙ open_new name w' fd got,
                λ d. shm_open-open name w' fd d got ∙ ap (λ x. (d == fd) || x) (same d),
              )
              (λ w'' keeps. rounds-Outcome left (attempt + 1) name size out w w'' keeps))
      ]

  -- Whatever the system answers, no descriptor is lost: a call of `create_or_open_shared_memory` that
  -- fails leaves `out` as it was and the same descriptors open, and one that succeeds has put the asked
  -- size into `out` and a descriptor that was not open before, which is now the only one more.
  pub create_keeps_descriptors :
      (name : List ℕ) (size : ℕ) (out : Segment) (w : W)
      → Outcome size out w (create_or_open_shared_memory os name size out w)
  unfolding create_or_open_shared_memory
  create_keeps_descriptors name size out w = elim (Bool-cases (size == 0)) [
    | inl nothing ↦ rw nothing (inl (refl, refl, λ d. refl))
    | inr some_bytes ↦ elim (Bool-cases (is_valid_shared_memory_name name)) [
      | inl valid ↦ rw (some_bytes, valid) (rounds-Outcome 2 0 name size out w w (λ d. refl))
      | inr bad ↦ rw (some_bytes, bad) (inl (refl, refl, set_invalid-open w))
    ]
  ]

  unmapped-Same : (p : Option ℕ) (size : ℕ) (w : W) → Same w (unmapped os p size w)
  unmapped-Same none size w d = refl
  unmapped-Same (some a) size w d = ground (arith, munmap-open w a size d)

  -- `close_shared_memory` takes back what a successful call has opened: the same descriptors are open as
  -- before the two calls.
  pub create_close :
      (name : List ℕ) (size : ℕ) (out : Segment) (w : W)
      → (create_or_open_shared_memory os name size out w).done ≡ true
      → let r = create_or_open_shared_memory os name size out w in
        Same w (close_shared_memory os r.out r.world).0
  unfolding close_shared_memory
  create_close name size out w done =
      let r = create_or_open_shared_memory os name size out w in
      elim (create_keeps_descriptors name size out w) [
        | inl (failed, _, _) ↦ absurd (ground (arith, failed, done))
        | inr (_, _, fd, is_fd, held) ↦
            rw is_fd
              (close-Same (Opened-Same held (unmapped-Same r.out.data_at r.out.size r.world)))
      ]
