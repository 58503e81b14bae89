-- ===== src/Runtime/ThreadPool/Tests.antt =====
-- `thread_pool` with one thread, thread 0, and one client, thread 1.
use hope_threading.Prelude.{ℕ, ◌<◌, ◌≡◌, refl, none, some, [], ◌∷◌, arith}
use hope_threading.Threads.{Run, run, solo}
use hope_threading.Runtime.ThreadPool.{
  move, enter, choose, pop_back, with_work, get_work, kill_next, wake, delete_thread, new_pool,
  up_to, add_work, spurious, destroy, in_wait, perform_store,
}
use hope_threading.Runtime.ThreadPool.Tokens.{occurs, active}
use hope_threading.Runtime.ThreadPool.Safety.{initial, handed_to_idle}
use hope_threading.Runtime.ThreadPool.Lost.{after_add, notification_lost}

-- The thread has found no work and stored null, or the client is about to hand
-- it the work 7.
abbrev before_wait : Run (move {A = ℕ}) 2 (initial 1 2)
before_wait = run move 2 (initial 1 2) ((0, spurious) ∷ (0, spurious) ∷ (0, spurious) ∷ [])

abbrev before_store : Run (move {A = ℕ}) 2 (initial 1 2)
before_store = run move 2 (initial 1 2) ((1, add_work 7) ∷ (1, add_work 7) ∷ (1, add_work 7) ∷ [])

handed_to_idle_example :
    (before_store.last.mem.handed 0 ≡ none)
    × (active (before_store.last.pc 0) ≡ 0)
    × (occurs 0 before_store.last.mem.free_threads ≡ 0)
    × ((k w : ℕ) → k < 2 → before_store.last.pc k ≡ perform_store 0 w → k ≡ 1)
unfolding run move enter choose pop_back with_work get_work kill_next wake delete_thread new_pool
    up_to occurs
handed_to_idle_example = handed_to_idle 1 2 before_store.reach 1 0 7 (omega arith) refl

notification_lost_example :
    let t = solo move 0 destroy 9 (after_add 1 7 before_wait.last) in
    (t.pc 0 ≡ in_wait) × (t.mem.handed 0 ≡ some 7) × (t.mem.free_threads ≡ []) × (t.mem.done ≡ [])
unfolding run move enter choose pop_back with_work get_work kill_next wake delete_thread new_pool
    up_to
notification_lost_example =
    notification_lost 0 1 8 7 [] before_wait.last (omega arith, refl, refl, refl, refl, refl) refl
