-- ===== src/Platform/FileMapping/Pages.antt =====
-- The size of a mapping that exists, which Windows gives in whole pages.
use hope_threading.Prelude.{
  ℕ, ◌/◌, ◌%◌, ◌^◌, ◌≡◌, ◌≢◌, refl, subst, inl, inr, true, false, Option, none, some, List, ◌==◌,
  ==_iff, Bool-cases, Option-cases,
}
use hope_threading.Platform.FileMapping.{
  Os, Segment, finish, compared, queried, opened, create_or_open_shared_memory,
}

module _ {W : Type 0} (os : Os W) where
  -- The mapping of a call, and the system behind it.
  abbrev pub asked : List ℕ → ℕ → W → W × Option ℕ
  asked name size w =
      os.create_file_mapping (size / 2 ^ 32 % 2 ^ 32) (size % 2 ^ 32) name (os.clear_error w)

  compared_fails :
      (h size a : ℕ) (out : Segment) (region : Option ℕ) (w : W)
      → ((n : ℕ) → region ≡ some n → n ≢ size)
      → (compared os h size out a region w).done ≡ false
  unfolding compared finish
  compared_fails h size a out none w other = refl
  compared_fails h size a out (some n) w other = elim (Bool-cases (n == size)) [
    | inl same ↦ absurd (other n refl ((==_iff n size).0 same))
    | inr differs ↦ rw differs refl
  ]

  -- A mapping that exists cannot be opened with the size it was created with, unless that is whole pages:
  -- if `VirtualQuery` gives multiples of a page and the asked size is none, a call of
  -- `create_or_open_shared_memory` that finds the mapping to exist fails.
  pub existing_fails :
      (page : ℕ) (name : List ℕ) (size : ℕ) (out : Segment) (w : W)
      → ((a n : ℕ) (w' : W) → (os.virtual_query a w').1 ≡ some n → n % page ≡ 0)
      → size % page ≢ 0
      → os.already_exists (asked name size w).0 ≡ true
      → (create_or_open_shared_memory os name size out w).done ≡ false
  unfolding create_or_open_shared_memory opened queried finish
  existing_fails page name size out w pages part exists = elim (Bool-cases (size == 0)) [
    | inl nothing ↦ rw nothing refl
    | inr some_bytes ↦ elim (Option-cases (asked name size w).1) [
      | inl failed ↦ rw (some_bytes, failed) refl
      | inr (h, got) ↦
          (let now = (asked name size w).0 in
            elim (Option-cases (os.map_view h 0 now).1) [
              | inl unmapped ↦ rw (some_bytes, got, exists, unmapped) refl
              | inr (a, mapped) ↦
                  rw (some_bytes, got, exists, mapped)
                    (compared_fails h size a out (os.virtual_query a (os.map_view h 0 now).0).1
                      (os.virtual_query a (os.map_view h 0 now).0).0
                      (λ n found e.
                        part
                          (subst (λ k. k % page ≡ 0) e (pages a n (os.map_view h 0 now).0 found))))
            ])
    ]
  ]
