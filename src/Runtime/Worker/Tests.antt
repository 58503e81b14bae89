-- ===== src/Runtime/Worker/Tests.antt =====
-- The theorems about `async_worker` at numbers as work.
use hope_threading.Prelude.{ℕ, zero, suc, ◌≡◌, ◌≤◌, refl, List, [], ◌∷◌, ◌++◌, arith, length, take}
use hope_threading.Threads.{Run, run, solo}
use hope_threading.Queue.MpscLinked as MpscLinked
use hope_threading.Runtime.Worker.{
  Call, move, start_call, arrived_add, arrived_drain, new_worker, add, idle, asleep,
}
use hope_threading.Runtime.Worker.Taken.{in_hand}
use hope_threading.Runtime.Worker.Order.{initial, worked_in_order}
use hope_threading.Runtime.Worker.Lost.{add_lost}

abbrev turns : ℕ → ℕ → ℕ → List (ℕ × Call ℕ)
turns i zero v = []
turns i (suc k) v = (i, add v) ∷ turns i k v

-- Thread 1 adds 7 and 8, and the worker takes the first of them.
abbrev two_added : Run (move {A = ℕ} 0) 2 (initial 0 2)
two_added = run (move 0) 2 (initial 0 2) (turns 1 6 7 ++ turns 1 6 8 ++ turns 0 5 0)

two_added_state :
    (in_hand (two_added.last.pc 0) ≡ 7 ∷ []) × (two_added.last.mem.queued_work.entered ≡ 7 ∷ 8 ∷ [])
unfolding run move start_call arrived_add arrived_drain new_worker MpscLinked.new MpscLinked.move
    MpscLinked.popped
two_added_state = (refl, refl)

worked_in_order_example :
    (two_added.last.mem.done ++ in_hand (two_added.last.pc 0)
      ≡ take two_added.last.mem.queued_work.tail two_added.last.mem.queued_work.entered)
    × (two_added.last.mem.queued_work.tail ≤ length two_added.last.mem.queued_work.entered)
worked_in_order_example = worked_in_order 0 2 two_added.reach

-- The worker has found nothing.
abbrev nothing_found : Run (move {A = ℕ} 0) 2 (initial 0 2)
nothing_found = run (move 0) 2 (initial 0 2) (turns 0 2 0)

add_lost_example :
    let t = solo (move 0) 0 (add 0) 4 (solo (move 0) 1 (add 7) 6 nothing_found.last) in
    (t.pc 0 ≡ asleep)
    × (t.mem.queued_work.entered ≡ nothing_found.last.mem.queued_work.entered ++ 7 ∷ [])
    × (t.mem.queued_work.tail ≡ nothing_found.last.mem.queued_work.tail)
    × (t.pc 1 ≡ idle)
unfolding run move arrived_drain new_worker MpscLinked.new MpscLinked.move MpscLinked.popped
add_lost_example = add_lost 0 1 2 7 (add 0) nothing_found.last (omega arith) refl refl
