-- ===== src/Queue/SpmcMessage/Tests.antt =====
-- `spmc_bounded_message_queue` of two messages, and the theorems there.
use hope_threading.Prelude.{ℕ, ◌≡◌, refl, List, [], ◌∷◌, arith, ℕ_discrete, ◌==◌, if◌then◌else◌}
use hope_threading.Queue.SpmcMessage.{Queue}
use hope_threading.Queue.SpmcMessage.Log.{Holds}

-- After the messages 4, 5 and 6.
abbrev three : Queue ℕ
three = record { writer_pos = 3; buffer = λ i. if i == 0 then 6 else 5 }

abbrev log : List ℕ
log = 4 ∷ 5 ∷ 6 ∷ []

three-Holds : Holds 2 log three
three-Holds = record {
  some_cell = omega arith;
  counted = refl;
  small = omega arith;
  recent = λ p lo hi. elim (ℕ_discrete p 1) [
    | yes e ↦ ground (arith, e)
    | no ne ↦ let two : p ≡ 2 = omega arith in rw two refl
  ];
}
