-- ===== src/Queue/MpscBounded/Tests.antt =====
-- `mpsc_bounded_queue` of two cells, and the theorems there.
use hope_threading.Prelude.{ℕ, ◌≡◌, refl, true, false, some, [], ◌∷◌, arith, ◌==◌, if◌then◌else◌}
use hope_threading.Queue.MpscBounded.{Queue, try_enqueue, try_dequeue}
use hope_threading.Queue.MpscBounded.Contents.{contents, IsSound}
use hope_threading.Queue.MpscBounded.Overrun.{full_overwrites}

-- Two cells, with the items 5 and 6 in them.
abbrev two : Queue ℕ
two = record {
  size = 2;
  head = 2;
  tail = 0;
  value = λ i. if i == 0 then 5 else 6;
  ready = λ _. true;
}

-- The same, with 5 alone.
abbrev one : Queue ℕ
one = record {
  size = 2;
  head = 1;
  tail = 0;
  value = λ i. if i == 0 then 5 else 6;
  ready = λ i. if i == 0 then true else false;
}

two-IsSound : IsSound two
two-IsSound = record {
  some_cell = omega arith;
  order = omega arith;
  room = omega arith;
  small = omega arith;
  full = λ p lo hi. refl;
  free = λ p lo hi. absurd (omega arith);
}

one-IsSound : IsSound one
one-IsSound = record {
  some_cell = omega arith;
  order = omega arith;
  room = omega arith;
  small = omega arith;
  full = λ p lo hi. ground arith;
  free = λ p lo hi. ground arith;
}

contents-two : contents two ≡ 5 ∷ 6 ∷ []
contents-two = refl

full_overwrites_example :
    ((try_enqueue two 7).1 ≡ true) × ((try_dequeue (try_enqueue two 7).0).1 ≡ some 7)
full_overwrites_example = full_overwrites two 7 two-IsSound (omega arith) refl
