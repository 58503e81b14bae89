-- ===== src/Queue/MpscBounded/Refine.antt =====
-- Below its size a `mpsc_bounded_queue` is a queue: what enters first leaves first.
use hope_threading.Prelude.{
  ℕ, zero, suc, ◌+◌, ◌-◌, ◌%◌, ◌^◌, ◌<◌, ◌≡◌, refl, ap, ap₂, ◌∙◌, ◌≢◌, true, false, Option, none,
  some, List, [], ◌∷◌, ◌++◌, arith, ℕ_discrete,
}
use hope_threading.Threads.{update}
use hope_threading.Queue.Slots.{slots_apart, slot_round}
use hope_threading.Queue.MpscBounded.{Queue, try_enqueue, try_dequeue}
use hope_threading.Queue.MpscBounded.Contents.{items, contents, IsSound}

-- What the dequeue of a queue does to its list of items.
pub pop {ℓ} : {A : Type ℓ} → List A → List A × Option A
pop [] = ([], none)
pop (x ∷ xs) = (xs, some x)

module _ {A : Type 0} where
  -- A write at the position behind the items adds an item.
  items-update :
      (value : ℕ → A) (size : ℕ) (v : A) (n from to : ℕ)
      → n < size
      → to ≡ from + n
      → items (update value (to % size) v) size from (suc n) ≡ items value size from n ++ v ∷ []
  items-update value size v zero from to lt e = ground (arith, e)
  items-update value size v (suc n) from to lt e =
      ap₂ ◌∷◌ (ground (arith, slots_apart size to from))
        (items-update value size v n (from + 1) to (omega arith) (omega (arith, e)))

  module _ (q : Queue A) (v : A) (s : IsSound q) (lt : q.head < q.tail + q.size) where
    -- The queue with one item more.
    abbrev added : Queue A
    added = record q {
      head = q.head + 1;
      value = update q.value (q.head % q.size) v;
      ready = update q.ready (q.head % q.size) true;
    }

    try_enqueue-eq : try_enqueue q v ≡ (added, true)
    unfolding try_enqueue
    try_enqueue-eq = ground (arith, s)

    contents-added : contents added ≡ contents q ++ v ∷ []
    contents-added =
        ap (items (update q.value (q.head % q.size) v) q.size q.tail) {x = q.head + 1 - q.tail}
          {y = suc (q.head - q.tail)} (omega (arith, s))
        ∙ items-update q.value q.size v (q.head - q.tail) q.tail q.head (omega (arith, s))
            (omega (arith, s))

    added-IsSound : q.head + 2 < 2 ^ 63 → IsSound added
    added-IsSound lim = record {
      some_cell = s.some_cell;
      order = omega (arith, s);
      room = omega (arith, lt);
      small = omega arith;
      full = λ p lo hi. elim (ℕ_discrete q.head p) [
        | yes e ↦ ground (arith, e)
        | no ne ↦ ground (arith, s.full p)
      ];
      free = λ p lo hi. ground (arith, s.free p, slots_apart q.size q.head p, s.order);
    }

  -- `try_enqueue` of a sound queue with fewer than `size` items succeeds, adds the value behind the
  -- others and leaves the queue sound, if its head does not come near the end of the word.
  pub try_enqueue_refines :
      (q : Queue A) (v : A)
      → IsSound q
      → q.head < q.tail + q.size
      → q.head + 2 < 2 ^ 63
      → let (q', done) = try_enqueue q v in
        (done ≡ true) × (contents q' ≡ contents q ++ v ∷ []) × IsSound q'
  try_enqueue_refines q v s lt lim =
      rw (try_enqueue-eq q v s lt) (refl, contents-added q v s lt, added-IsSound q v s lt lim)

  module _ (q : Queue A) (s : IsSound q) (ne : q.head ≢ q.tail) where
    abbrev removed : Queue A
    removed = record q { ready = update q.ready (q.tail % q.size) false; tail = q.tail + 1 }

    try_dequeue-eq : try_dequeue q ≡ (removed, some (q.value (q.tail % q.size)))
    unfolding try_dequeue
    try_dequeue-eq = ground (arith, s.full q.tail, s.order, s.small)

    contents_eq_cons : contents q ≡ q.value (q.tail % q.size) ∷ contents removed
    contents_eq_cons =
        ap (items q.value q.size q.tail) {x = q.head - q.tail} {y = suc (q.head - (q.tail + 1))}
          (omega (arith, s))

    removed-IsSound : IsSound removed
    removed-IsSound = record {
      some_cell = s.some_cell;
      order = omega (arith, s);
      room = omega (arith, s);
      small = s.small;
      full = λ p lo hi. ground (arith, s.full p, slots_apart q.size q.tail p, s.room);
      free = λ p lo hi. elim (ℕ_discrete p (q.tail + q.size)) [
        | yes e ↦ ground (arith, e, slot_round q.size q.tail)
        | no other ↦ ground (arith, s.free p)
      ];
    }

  try_dequeue-empty : (q : Queue A) → q.head ≡ q.tail → try_dequeue q ≡ (q, none)
  unfolding try_dequeue
  try_dequeue-empty q e = ground arith

  contents-empty : (q : Queue A) → q.head ≡ q.tail → contents q ≡ []
  contents-empty q e = ap (items q.value q.size q.tail) {x = q.head - q.tail} {y = 0} (omega arith)

  -- `try_dequeue` of a sound queue takes the oldest item, or finds none if there is none, and leaves
  -- the queue sound.
  pub try_dequeue_refines :
      (q : Queue A)
      → IsSound q
      → let (q', out) = try_dequeue q in ((contents q', out) ≡ pop (contents q)) × IsSound q'
  unfolding pop
  try_dequeue_refines q s = elim (ℕ_discrete q.head q.tail) [
    | yes e ↦ rw (try_dequeue-empty q e, contents-empty q e) (refl, s)
    | no ne ↦ rw (try_dequeue-eq q s ne, contents_eq_cons q s ne) (refl, removed-IsSound q s ne)
  ]
