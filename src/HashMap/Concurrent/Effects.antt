-- ===== src/HashMap/Concurrent/Effects.antt =====
-- What one move does to the buckets, place by place.
use hope_threading.Prelude.{
  ℕ, ◌+◌, ◌*◌, ◌%◌, ◌^◌, ◌≡◌, refl, sym, subst, ◌⊎◌, inl, inr, true, false, none, some, Bool,
  Option, List, arith, if◌then◌else◌, Bool-cases, ℕ_discrete,
}
use native.Mathlib.Nat.{mul-pos}
use hope_threading.Threads.{update}
use hope_threading.HashMap.Traits.{Traits}
use hope_threading.HashMap.Lists.{find_in, find_in-remove_in}
use hope_threading.HashMap.Storage.{
  Bucket, list_of, pushed, renewed_in, rehash, emplace_call, remove_call,
}
use hope_threading.HashMap.Storage.Lookup.{pushed-find, renewed_in-find}
use hope_threading.HashMap.Storage.History.{expected}
use hope_threading.HashMap.Concurrent.{
  Memory, SharedBucket, Place, Request, change, find_request, obtain_request, idle, emplace_section,
  find_section, obtain_section, remove_section, resize_claim, nothing, emplaced, found, obtained,
  resize_load, resize_allocate, resize_copy, resize_swap, resize_store, resize_release, thrown,
  find_locked, place_of, bucket_of, with_bucket, with_flag, entered, removed, remove_locked,
  answer_obtain, swapped, claim, move, enter,
}
use hope_threading.HashMap.Concurrent.Invariant.{resizes, Sizes, Placed, Copies, Fits, At}
use hope_threading.HashMap.Concurrent.Sections.{
  rehash-Copies, swapped-Placed, pushed-Placed, renewed_in-Placed, removed-Placed, Placed-flag,
}

-- A bucket that holds what it held, or says that it has changed.
abbrev pub IsCalm : {V : Type 0} → Bucket V → Bucket V → Type 0
IsCalm x y =
    (y.changed_while_resize ≡ true)
    ⊎ ((y.lists ≡ x.lists)
        × (y.count ≡ x.count)
        × (y.changed_while_resize ≡ x.changed_while_resize))

-- What holds of the buckets, whatever the threads do.
pub record Sound {K V : Type 0} (t : Traits K V) (b f : ℕ) (m : Memory K V) : Type 0 where
  pub placed : (i : ℕ) → Placed t b f (m.buckets i).bucket
  pub fits : (i : ℕ) → Fits t b f (m.buckets i).bucket.capacity
  pub contents : (k : K) → find_locked t b f m k ≡ expected t b f m.calls k

pub record Effect {K V : Type 0} (t : Traits K V) (b f : ℕ) (m : Memory K V) (p : Place K V)
    (m' : Memory K V) (p' : Place K V) : Type 0 where
  pub sound : Sound t b f m'
  pub claimed :
      (i h h' : ℕ)
      → h' + resizes i p ≡ h + resizes i p'
      → h ≡ (if (m.buckets i).resizing then 1 else 0)
      → h' ≡ (if (m'.buckets i).resizing then 1 else 0)
  pub own : At t b f m' p'
  pub calm : (i : ℕ) → IsCalm (m.buckets i).bucket (m'.buckets i).bucket ⊎ (resizes i p ≡ 1)

module _ {K V : Type 0} (t : Traits K V) (b f : ℕ) (m : Memory K V) (sound : Sound t b f m) where
  open t use {key, hash, equal, equal_iff}

  quiet :
      (p p' : Place K V)
      → At t b f m p'
      → ((i : ℕ) → resizes i p' ≡ resizes i p)
      → Effect t b f m p m p'
  quiet p p' at same = record {
    sound = sound;
    claimed = λ i h h' e g. omega (arith, e, g, same i);
    own = at;
    calm = λ i. inl (inr (refl, refl, refl));
  }

  -- A section that has changed bucket `i`.
  section_changes :
      (p p' : Place K V) (i : ℕ) (x : Bucket V) (m' : Memory K V)
      → m'.buckets ≡ (with_bucket t b f m i x).buckets
      → x.changed_while_resize ≡ true
      → Placed t b f x
      → Fits t b f x.capacity
      → ((k : K) → find_locked t b f m' k ≡ expected t b f m'.calls k)
      → At t b f m' p'
      → ((i : ℕ) → resizes i p' ≡ resizes i p)
      → Effect t b f m p m' p'
  section_changes p p' i x m' is changed valid fit holds at same = record {
    sound = record {
      placed = λ k. ground (arith, is, valid, sound.placed k);
      fits = λ k. ground (arith, is, fit, sound.fits k);
      contents = holds;
    };
    claimed = λ k h h' e g. ground (arith, is, e, g, same k);
    own = at;
    calm = λ k. ground (arith, is, changed);
  }

  entered-contents :
      (v : V) (k : K) (o : Option V)
      → find_locked t b f m (key v) ≡ o
      → find_locked t b f (entered t b f m v o).0 k ≡ expected t b f (entered t b f m v o).0.calls k
  unfolding entered expected
  entered-contents v k (some old) held = ground (
    arith,
    held,
    renewed_in-find t b f (bucket_of t b f m (key v)) v k,
    sound.contents k,
    sound.contents (key v),
    equal_iff (key v) k,
  )
  entered-contents v k none held = ground (
    arith,
    held,
    pushed-find t b f (bucket_of t b f m (key v)) v k,
    sound.contents k,
    sound.contents (key v),
    equal_iff (key v) k,
  )

  remove-contents :
      (j k : K)
      → find_locked t b f (remove_locked t b f m j) k
        ≡ expected t b f (remove_locked t b f m j).calls k
  unfolding remove_locked expected
  remove-contents j k = ground (
    arith,
    find_in-remove_in t j k (list_of t b f (bucket_of t b f m j) j),
    sound.contents k,
    equal_iff j k,
  )

  entered-Effect :
      (v : V) (o : Option V)
      → find_locked t b f m (key v) ≡ o
      → Effect t b f m (emplace_section v) (entered t b f m v o).0 (entered t b f m v o).1
  unfolding entered renewed_in pushed
  entered-Effect v (some old) held =
      let x = bucket_of t b f m (key v) in
      section_changes (emplace_section v) (entered t b f m v (some old)).1 (place_of t b f (key v))
        (renewed_in t b f x v) (entered t b f m v (some old)).0 refl refl
        (renewed_in-Placed t b f x v (sound.placed (place_of t b f (key v))))
        (sound.fits (place_of t b f (key v))) (λ k. entered-contents v k (some old) held) tt
        (λ i. refl)
  entered-Effect v none held =
      let x = bucket_of t b f m (key v) in
      section_changes (emplace_section v) (entered t b f m v none).1 (place_of t b f (key v))
        (pushed t b f x v) (entered t b f m v none).0 refl refl
        (pushed-Placed t b f x v (sound.placed (place_of t b f (key v))) held)
        (sound.fits (place_of t b f (key v))) (λ k. entered-contents v k none held) (ground arith)
        (λ i. ground arith)

  remove-Effect :
      (k : K) → Effect t b f m (remove_section k) (remove_locked t b f m k) (idle nothing)
  unfolding remove_locked
  remove-Effect k =
      let x = bucket_of t b f m k in
      section_changes (remove_section k) (idle nothing) (place_of t b f k) (removed t b f x k)
        (remove_locked t b f m k) refl refl
        (removed-Placed t b f x k (sound.placed (place_of t b f k))) (sound.fits (place_of t b f k))
        (λ j. remove-contents k j) tt (λ i. refl)

  -- A thread that resizes bucket `i` has changed it, and no key leads elsewhere.
  resizer_changes :
      (p p' : Place K V) (i : ℕ) (x : Bucket V)
      → resizes i p ≡ 1
      → Placed t b f x
      → Fits t b f x.capacity
      → ((k : K)
          → find_in t k (list_of t b f x k) ≡ find_in t k (list_of t b f (m.buckets i).bucket k))
      → At t b f (with_bucket t b f m i x) p'
      → ((i : ℕ) → resizes i p' ≡ resizes i p)
      → Effect t b f m p (with_bucket t b f m i x) p'
  resizer_changes p p' i x mine valid fit holds at same = record {
    sound = record {
      placed = λ k. ground (arith, valid, sound.placed k);
      fits = λ k. ground (arith, fit, sound.fits k);
      contents = λ k. ground (arith, holds k, sound.contents k);
    };
    claimed = λ k h h' e g. ground (arith, e, g, same k);
    own = at;
    calm = λ k. elim (ℕ_discrete i k) [
      | yes e ↦ inr (subst (λ k. resizes k p ≡ 1) e mine)
      | no ne ↦ inl (inr (ground (arith, ne)))
    ];
  }

  copy-Effect :
      (i capacity : ℕ)
      → Fits t b f capacity
      → let x = (m.buckets i).bucket in
        let p' = resize_swap i capacity (rehash t b f capacity x.count x.lists) in
        Effect t b f m
          (resize_copy i capacity)
          (with_bucket t b f m i (record x { changed_while_resize = false }))
          p'
  copy-Effect i capacity fit =
      let x = (m.buckets i).bucket in
      let y : SharedBucket V = record (m.buckets i) {
        bucket = record x { changed_while_resize = false };
      } in
      let same : update m.buckets i y i ≡ y = ground arith in
      resizer_changes (resize_copy i capacity)
        (resize_swap i capacity (rehash t b f capacity x.count x.lists)) i
        (record x { changed_while_resize = false }) (ground arith)
        (Placed-flag t b f x false (sound.placed i)) (sound.fits i) (λ k. refl)
        (
          fit,
          λ _.
              subst (λ s. Copies t b f s.bucket capacity (rehash t b f capacity x.count x.lists))
                (sym same)
                (rehash-Copies t b f (record x { changed_while_resize = false }) capacity
                  (Placed-flag t b f x false (sound.placed i))),
        )
        (λ k. refl)

  swap-Effect :
      (i capacity : ℕ) (lists : ℕ → List V)
      → At t b f m (resize_swap i capacity lists)
      → Effect t b f m
          (resize_swap i capacity lists)
          (swapped t b f m i capacity lists).0
          (swapped t b f m i capacity lists).1
  unfolding swapped
  swap-Effect i capacity lists (fit, copies) =
      let x = (m.buckets i).bucket in
      elim (Bool-cases x.changed_while_resize) [
        | inl changed ↦
            rw changed
              (quiet (resize_swap i capacity lists) (resize_allocate i capacity) fit.0 (λ k. refl))
        | inr clean ↦ rw clean (
            resizer_changes (resize_swap i capacity lists) (resize_store i capacity) i
              (record x { lists = lists; count = capacity; changed_while_resize = false })
              (ground arith)
              (Placed-flag t b f (record x { lists = lists; count = capacity }) false
                (swapped-Placed t b f x capacity lists fit.0 (copies clean)))
              (sound.fits i) (copies clean).same fit (λ k. refl))
      ]

  flag-Effect :
      (p p' : Place K V) (i : ℕ) (flag : Bool)
      → ((k h h' : ℕ)
          → h' + resizes k p ≡ h + resizes k p'
          → h ≡ (if (m.buckets k).resizing then 1 else 0)
          → h' ≡ (if ((with_flag t b f m i flag).buckets k).resizing then 1 else 0))
      → At t b f (with_flag t b f m i flag) p'
      → Effect t b f m p (with_flag t b f m i flag) p'
  flag-Effect p p' i flag counts at = record {
    sound = record {
      placed = λ k. ground (arith, sound.placed k);
      fits = λ k. ground (arith, sound.fits k);
      contents = λ k. ground (arith, sound.contents k);
    };
    claimed = counts;
    own = at;
    calm = λ k. inl (inr (ground arith));
  }

  claim-Effect : (i : ℕ) → Effect t b f m (resize_claim i) (claim t b f m i).0 (claim t b f m i).1
  unfolding claim
  claim-Effect i = elim (Bool-cases (m.buckets i).resizing) [
    | inl taken ↦ rw taken (quiet (resize_claim i) (idle (emplaced true)) tt (λ k. refl))
    | inr free ↦ rw free (
        flag-Effect (resize_claim i) (resize_load i) i true
          (λ k h h' e g. ground (arith, e, g, free)) tt)
  ]

  obtain-Effect :
      (v : V) (o : Option V) → Effect t b f m (obtain_section v) m (answer_obtain t b f v o)
  unfolding answer_obtain
  obtain-Effect v none = quiet (obtain_section v) (idle (obtained v false)) tt (λ k. refl)
  obtain-Effect v (some old) =
      quiet (obtain_section v) (idle (obtained (t.assign v old) true)) tt (λ k. refl)

  module _ (can_allocate : ℕ → Bool) (sizes : Sizes f can_allocate) where
    pub move-Effect :
        (c : Request K V) (j : ℕ) (p : Place K V)
        → At t b f m p
        → Effect t b f m p (move t b f can_allocate c j m p).0 (move t b f can_allocate c j m p).1
    unfolding move enter answer_obtain
    move-Effect (change (emplace_call v)) j (idle a) at =
        quiet (idle a) (emplace_section v) tt (λ k. refl)
    move-Effect (change (remove_call k)) j (idle a) at =
        quiet (idle a) (remove_section k) tt (λ k. refl)
    move-Effect (find_request k) j (idle a) at = quiet (idle a) (find_section k) tt (λ k. refl)
    move-Effect (obtain_request v) j (idle a) at = quiet (idle a) (obtain_section v) tt (λ k. refl)
    move-Effect c j (emplace_section v) at = entered-Effect v (find_locked t b f m (key v)) refl
    move-Effect c j (find_section k) at =
        quiet (find_section k) (idle (found (find_locked t b f m k))) tt (λ k. refl)
    move-Effect c j (obtain_section v) at = obtain-Effect v (find_locked t b f m (key v))
    move-Effect c j (remove_section k) at = remove-Effect k
    move-Effect c j (resize_claim i) at = claim-Effect i
    move-Effect c j (resize_load i) at =
        quiet (resize_load i) (resize_allocate i ((m.buckets i).bucket.capacity * f % 2 ^ 64))
          (omega (arith, sound.fits i, mul-pos (sound.fits i).0 sizes.0)) (λ k. refl)
    move-Effect c j (resize_allocate i capacity) at = elim (Bool-cases (can_allocate capacity)) [
      | inl enough ↦ rw enough (
          quiet (resize_allocate i capacity) (resize_copy i capacity) (at, sizes.2 capacity enough)
            (λ k. refl))
      | inr failed ↦ rw failed (quiet (resize_allocate i capacity) (thrown i) tt (λ k. refl))
    ]
    move-Effect c j (resize_copy i capacity) at = copy-Effect i capacity at
    move-Effect c j (resize_swap i capacity lists) at = swap-Effect i capacity lists at
    move-Effect c j (resize_store i capacity) at =
        resizer_changes (resize_store i capacity) (resize_release i) i
          (record ((m.buckets i).bucket) { capacity = capacity }) (ground arith) (sound.placed i) at
          (λ k. refl) tt (λ k. refl)
    move-Effect c j (resize_release i) at =
        flag-Effect (resize_release i) (idle (emplaced true)) i false
          (λ k h h' e g. ground (arith, e, g)) tt
    move-Effect c j (thrown i) at = quiet (thrown i) (thrown i) tt (λ k. refl)
