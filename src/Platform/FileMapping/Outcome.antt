-- ===== src/Platform/FileMapping/Outcome.antt =====
-- No handle and no view is lost, whatever the system answers.
use hope_threading.Prelude.{
  ℕ, ◌/◌, ◌%◌, ◌^◌, ◌≡◌, refl, sym, ap, ◌∙◌, ◌⊎◌, inl, inr, Bool, true, false, ◌||◌, ◌&&◌, not,
  Option, none, some, List, arith, ◌==◌, ==_iff, Bool-cases, Option-cases,
}
use hope_threading.Platform.FileMapping.{
  Os, Segment, Returned, finish, compared, queried, opened, create_or_open_shared_memory,
  close_shared_memory,
}
use hope_threading.Platform.FileMapping.Resources.{Resources}

module _ {W : Type 0} (os : Os W) (held : Resources os) where
  open held use {is_open, is_view}

  -- One more is held, or none.
  abbrev More : Option ℕ → (ℕ → Bool) → (ℕ → Bool) → Type 0
  More none before after = (d : ℕ) → after d ≡ before d
  More (some x) before after = (before x ≡ false) × ((d : ℕ) → after d ≡ (d == x) || before d)

  -- Between two states, one more handle and one more view are held, or none.
  pub record Holds (w w' : W) (mapping view : Option ℕ) : Type 0 where
    pub handles : More mapping (λ d. is_open d w) (λ d. is_open d w')
    pub views : More view (λ d. is_view d w) (λ d. is_view d w')

  -- A failure leaves `out`, the handles and the views; a success has put the asked size and what it
  -- holds more into `out`.
  abbrev pub Outcome : ℕ → Segment → W → Returned W → Type 0
  Outcome size out w r =
      ((r.done ≡ false) × (r.out ≡ out) × Holds w r.world none none)
      ⊎ ((r.done ≡ true)
          × (r.out.size ≡ size)
          × (h : ℕ) × (a : ℕ) × (r.out.mapping ≡ some h)
          × (r.out.data_at ≡ some a)
          × Holds w r.world (some h) (some a))

  More-same : (o : Option ℕ) (f g g' : ℕ → Bool) → More o f g → ((d : ℕ) → g' d ≡ g d) → More o f g'
  More-same none f g g' more same = λ d. same d ∙ more d
  More-same (some x) f g g' more same = (more.0, λ d. same d ∙ more.1 d)

  More-less :
      (x : ℕ) (f g g' : ℕ → Bool)
      → More (some x) f g
      → ((d : ℕ) → g' d ≡ not (d == x) && g d)
      → More none f g'
  More-less x f g g' more less d = ground (arith, less d, more.1 d, more.0)

  module _ (w : W) where
    Holds-same :
        {w' w'' : W} {h v : Option ℕ}
        → Holds w w' h v
        → ((d : ℕ) → is_open d w'' ≡ is_open d w')
        → ((d : ℕ) → is_view d w'' ≡ is_view d w')
        → Holds w w'' h v
    Holds-same {w'} {w''} {h = h} {v = v} s opens views = record {
      handles =
          More-same h (λ d. is_open d w) (λ d. is_open d w') (λ d. is_open d w'') s.handles opens;
      views = More-same v (λ d. is_view d w) (λ d. is_view d w') (λ d. is_view d w'') s.views views;
    }

    closed-Holds :
        {w' : W} {h : ℕ} {v : Option ℕ}
        → Holds w w' (some h) v
        → Holds w (os.close_handle h w') none v
    closed-Holds {w'} {h} {v} s = record {
      handles =
          More-less h (λ d. is_open d w) (λ d. is_open d w') (λ d. is_open d (os.close_handle h w'))
            s.handles (held.close-open w' h);
      views =
          More-same v (λ d. is_view d w) (λ d. is_view d w') (λ d. is_view d (os.close_handle h w'))
            s.views (held.close-view w' h);
    }

    unmapped-Holds :
        {w' : W} {h : Option ℕ} {a : ℕ}
        → Holds w w' h (some a)
        → Holds w (os.unmap_view a w') h none
    unmapped-Holds {w'} {h} {a} s = record {
      handles =
          More-same h (λ d. is_open d w) (λ d. is_open d w') (λ d. is_open d (os.unmap_view a w'))
            s.handles (held.unmap-open w' a);
      views =
          More-less a (λ d. is_view d w) (λ d. is_view d w') (λ d. is_view d (os.unmap_view a w'))
            s.views (held.unmap-view w' a);
    }

    finish-fails :
        (h size : ℕ) (created : Bool) (out : Segment) {w' : W}
        → Holds w w' (some h) none
        → (asked : ℕ) → Outcome asked out w (finish os h created size out none w')
    unfolding finish
    finish-fails h size created out s asked = inl (refl, refl, closed-Holds s)

    finish-succeeds :
        (h n a : ℕ) (created : Bool) (out : Segment) {w' : W}
        → Holds w w' (some h) (some a)
        → (asked : ℕ) → n ≡ asked
        → Outcome asked out w (finish os h created n out (some a) w')
    unfolding finish
    finish-succeeds h n a created out s asked e = inr (refl, e, h, a, refl, refl, s)

    compared-Outcome :
        (h size a : ℕ) (out : Segment) (region : Option ℕ) {w' : W}
        → Holds w w' (some h) (some a)
        → Outcome size out w (compared os h size out a region w')
    unfolding compared
    compared-Outcome h size a out none s = finish-fails h size false out (unmapped-Holds s) size
    compared-Outcome h size a out (some n) {w'} s = elim (Bool-cases (n == size)) [
      | inl same ↦ rw same (finish-succeeds h n a false out s size ((==_iff n size).0 same))
      | inr other ↦ rw other (
          finish-fails h n false out
            (Holds-same (unmapped-Holds s) (held.invalid-open (os.unmap_view a w'))
              (held.invalid-view (os.unmap_view a w')))
            size)
    ]

    mapped-Holds :
        {w' : W} {h : Option ℕ} (k n a : ℕ)
        → (os.map_view k n w').1 ≡ some a
        → Holds w w' h none
        → Holds w (os.map_view k n w').0 h (some a)
    mapped-Holds {w'} {h} k n a got s = record {
      handles =
          More-same h (λ d. is_open d w) (λ d. is_open d w') (λ d. is_open d (os.map_view k n w').0)
            s.handles (held.map-open k n w');
      views = (
        sym (s.views a) ∙ held.map-new k n w' a got,
        λ d. held.map-view k n w' a d got ∙ ap (λ x. (d == a) || x) (s.views d),
      );
    }

    not_mapped-Holds :
        {w' : W} {h : Option ℕ} (k n : ℕ)
        → (os.map_view k n w').1 ≡ none
        → Holds w w' h none
        → Holds w (os.map_view k n w').0 h none
    not_mapped-Holds {w'} k n failed s =
        Holds-same s (held.map-open k n w') (λ d. held.map-fails k n w' d failed)

    opened-Outcome :
        (h size : ℕ) (out : Segment) {w' : W}
        → Holds w w' (some h) none
        → Outcome size out w (opened os size out (some h) w')
    unfolding opened queried
    opened-Outcome h size out {w'} s = elim (Bool-cases (os.already_exists w')) [
      | inl exists ↦ elim (Option-cases (os.map_view h 0 w').1) [
        | inl failed ↦
            rw (exists, failed, queried)
              (finish-fails h size false out (not_mapped-Holds h 0 failed s) size)
        | inr (a, got) ↦
            (let now = (os.map_view h 0 w').0 in
              rw (exists, got, queried)
                (compared-Outcome h size a out (os.virtual_query a now).1 (
                  Holds-same (mapped-Holds h 0 a got s) (held.query-open now a)
                    (held.query-view now a))))
      ]
      | inr fresh ↦ elim (Option-cases (os.map_view h size w').1) [
        | inl failed ↦
            rw (fresh, failed)
              (finish-fails h size true out (not_mapped-Holds h size failed s) size)
        | inr (a, got) ↦
            rw (fresh, got)
              (finish-succeeds h size a true out (mapped-Holds h size a got s) size refl)
      ]
    ]

  same-Holds : (w : W) → Holds w w none none
  same-Holds w = record { handles = λ d. refl; views = λ d. refl }

  -- Whatever Windows answers, no handle and no view is lost: a call of `create_or_open_shared_memory`
  -- that fails leaves `out` as it was and the same handles of mappings and the same views, and one that
  -- succeeds has put the asked size into `out`, with the one handle and the one view that are held more.
  pub create_keeps_handles :
      (name : List ℕ) (size : ℕ) (out : Segment) (w : W)
      → Outcome size out w (create_or_open_shared_memory os name size out w)
  unfolding create_or_open_shared_memory opened
  create_keeps_handles name size out w = elim (Bool-cases (size == 0)) [
    | inl nothing ↦ rw nothing (inl (refl, refl, same-Holds w))
    | inr some_bytes ↦
        let high = size / 2 ^ 32 % 2 ^ 32 in
        let low = size % 2 ^ 32 in
        let clean = os.clear_error w in
        elim (Option-cases (os.create_file_mapping high low name clean).1) [
          | inl failed ↦
              rw (some_bytes, failed)
                (inl (
                  refl,
                  refl,
                  record {
                    handles =
                        λ d. held.create-fails high low name clean d failed ∙ held.clear-open w d;
                    views = λ d. held.create-view high low name clean d ∙ held.clear-view w d;
                  },
                ))
          | inr (h, got) ↦
              rw (some_bytes, got)
                (opened-Outcome w h size out (record {
                  handles = (
                    sym (held.clear-open w h) ∙ held.create-new high low name clean h got,
                    λ d.
                        held.create-open high low name clean h d got
                        ∙ ap (λ x. (d == h) || x) (held.clear-open w d),
                  );
                  views = λ d. held.create-view high low name clean d ∙ held.clear-view w d;
                }))
        ]
  ]

  -- `close_shared_memory` takes back what a successful call holds: the same handles and views are held as
  -- before the two calls.
  pub create_then_close :
      (name : List ℕ) (size : ℕ) (out : Segment) (w : W)
      → (create_or_open_shared_memory os name size out w).done ≡ true
      → let r = create_or_open_shared_memory os name size out w in
        Holds w (close_shared_memory os r.out r.world).0 none none
  unfolding close_shared_memory
  create_then_close name size out w done = elim (create_keeps_handles name size out w) [
    | inl (failed, _, _) ↦ absurd (ground (arith, failed, done))
    | inr (_, _, h, a, is_h, is_a, more) ↦ rw (is_h, is_a) (closed-Holds w (unmapped-Holds w more))
  ]
