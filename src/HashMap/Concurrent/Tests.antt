-- ===== src/HashMap/Concurrent/Tests.antt =====
-- Two threads at a storage of numbers, of which one grows a bucket while the other one adds to it.
use hope_threading.Prelude.{ℕ, ◌≡◌, refl, Bool, [], ◌∷◌, arith, ltb, ◌==◌, ==_iff}
use hope_threading.Threads.{Run, run, turn}
use hope_threading.HashMap.Traits.{Traits}
use hope_threading.HashMap.Lists.{find_in}
use hope_threading.HashMap.Storage.{pushed, emplace_call}
use hope_threading.HashMap.Storage.History.{expected}
use hope_threading.HashMap.Concurrent.{
  enter, entered, new_memory, claim, swapped, Request, change, find_locked, move, idle, found,
  find_section, resize_allocate,
}
use hope_threading.HashMap.Concurrent.Invariant.{Sizes}
use hope_threading.HashMap.Concurrent.Reached.{initial}
use hope_threading.HashMap.Concurrent.Safety.{finds_what_calls_say}

abbrev numbers : Traits ℕ ℕ
numbers = record {
  key = λ v. v;
  assign = λ old new. old;
  hash = λ k. k;
  equal = λ a b. a == b;
  equal_iff = λ a b. ==_iff a b;
  key-assign = λ old new. refl;
}

-- Fewer than a thousand lists can be allocated.
abbrev few_lists : ℕ → Bool
few_lists c = ltb c 1000

few_lists-Sizes : Sizes 2 few_lists
few_lists-Sizes = (omega arith, omega arith, λ c h. ground (arith, h))

-- Thread 0 has copied the bucket of 1, and thread 1 has added 9 to it, before the swap.
abbrev grown : Run (move numbers 8 2 few_lists) 2 (initial numbers 8 2 few_lists few_lists-Sizes 2)
grown = run (move numbers 8 2 few_lists) 2 (initial numbers 8 2 few_lists few_lists-Sizes 2) (
    (0, change (emplace_call 1))
    ∷ (0, change (emplace_call 1))
    ∷ (0, change (emplace_call 1))
    ∷ (0, change (emplace_call 1))
    ∷ (0, change (emplace_call 1))
    ∷ (0, change (emplace_call 1))
    ∷ (1, change (emplace_call 9))
    ∷ (1, change (emplace_call 9))
    ∷ (0, change (emplace_call 1))
    ∷ [])

finds_what_calls_say_example :
    ((k : ℕ)
      → find_locked numbers 8 2 grown.last.mem k ≡ expected numbers 8 2 grown.last.mem.calls k)
    × ((i k : ℕ) (c : Request ℕ ℕ)
        → grown.last.pc i ≡ find_section k
        → (turn (move numbers 8 2 few_lists) i c grown.last).pc i
          ≡ idle (found (expected numbers 8 2 grown.last.mem.calls k)))
finds_what_calls_say_example =
    finds_what_calls_say numbers 8 2 few_lists few_lists-Sizes grown.reach

swap_refused : grown.last.pc 0 ≡ resize_allocate 1 2
unfolding run move enter entered find_in new_memory pushed claim swapped
swap_refused = refl
