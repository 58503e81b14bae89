-- ===== src/HashMap/ChunkedSet/Tests.antt =====
-- Two threads at a set of numbers in 8 chunks, over functions as the sets.
use hope_threading.Prelude.{ℕ, ◌≡◌, refl, Bool, false, ◌||◌, [], ◌∷◌, ◌==◌, ==_iff}
use hope_threading.Threads.{Run, run, turn}
use hope_threading.HashMap.ChunkedSet.{
  StdSet, Call, emplace_call, find_call, find, move, idle, found, find_section,
}
use hope_threading.HashMap.ChunkedSet.Safety.{Laws, has, initial, chunks_are_one_set}

abbrev tests : StdSet ℕ (ℕ → Bool)
tests = record { new = λ _. false; emplace = λ j s k. (j == k) || s k; find = λ k s. s k }

tests-Laws : Laws tests
tests-Laws = record {
  equal = λ j k. j == k;
  equal_iff = ==_iff;
  find-new = λ k. refl;
  find-emplace = λ j k s. refl;
}

-- Thread 0 has entered 9 and thread 1 has entered 1, into one chunk; thread 0 is about to look for 9.
abbrev two_entered : Run (move tests (λ k. k) 8) 2 (initial tests tests-Laws (λ k. k) 8)
two_entered = run (move tests (λ k. k) 8) 2 (initial tests tests-Laws (λ k. k) 8) (
    (0, emplace_call 9)
    ∷ (1, emplace_call 1)
    ∷ (0, emplace_call 9)
    ∷ (1, emplace_call 1)
    ∷ (0, find_call 9)
    ∷ [])

chunks_are_one_set_example :
    ((k : ℕ)
      → find tests (λ k. k) 8 k two_entered.last.mem
        ≡ has tests tests-Laws (λ k. k) 8 k two_entered.last.mem.entered)
    × ((i k : ℕ) (c : Call ℕ)
        → two_entered.last.pc i ≡ find_section k
        → (turn (move tests (λ k. k) 8) i c two_entered.last).pc i
          ≡ idle (found (has tests tests-Laws (λ k. k) 8 k two_entered.last.mem.entered)))
chunks_are_one_set_example = chunks_are_one_set tests tests-Laws (λ k. k) 8 two_entered.reach
