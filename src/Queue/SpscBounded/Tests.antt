-- ===== src/Queue/SpscBounded/Tests.antt =====
-- `spsc_bounded_queue` on inputs.
use hope_threading.Prelude.{ℕ, ◌≡◌, refl, none, some, List, [], ◌∷◌, ◌++◌, map, take, drop}
use hope_threading.Queue.SpscBounded.{Queue, new, try_enqueue}
use hope_threading.Queue.SpscBounded.Exchanges.{exchanges, exchanges-new}

abbrev four : Queue ℕ
four = new 4 0

abbrev three : List ℕ
three = 7 ∷ 8 ∷ 9 ∷ []

abbrev sixty_four : Queue ℕ
sixty_four = new 64 0

exchanges-new_example :
    exchanges four three ≡ map some (take 64 three) ++ map (λ _. none) (drop 64 three)
exchanges-new_example = exchanges-new 4 0 three

-- The positions of a queue of 64 cells after its first two values.
two_entered : ((try_enqueue (try_enqueue sixty_four 5).0 6).0).head ≡ 3
unfolding try_enqueue new
two_entered = refl
