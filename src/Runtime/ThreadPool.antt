-- ===== src/Runtime/ThreadPool.antt =====
-- `thread_pool` of lib/hope_thread/runtime/threadpool.h, with the POSIX `synchronization_event` of
-- lib/hope_thread/synchronization/event.h. Threads below `size` run `queued_thread::run`; the others call
-- `add_work` and `destroy`. A section under `m_queue_guard` is one step, but for the last one of
-- `destroy`, in which the guard is held. The wrappers of the work, and their pool, are left out: a work stands for its wrapper.
mod Tokens
pub mod Safety
pub mod Lost
mod Tests
use hope_threading.Prelude.{
  ℕ, zero, suc, ◌+◌, Bool, true, false, Option, none, some, List, [], ◌∷◌, ◌++◌, ltb, ◌==◌,
  if◌then◌else◌, length,
}
use hope_threading.Threads.{update}

-- `m_queued_work`, `m_free_threads`, the number of `m_all_threads`, which are those from 0 on,
-- `m_time_to_die`, and whether `destroy` holds the guard; then by thread whether it is deleted, its `m_queued_work`, its `m_time_to_die`, whether it is in `wait` of its event, and whether its
-- `run` has returned. `done` is no part of the code: the work that has been called, in order.
pub record Pool (A : Type 0) : Type 0 where
  pub queued_work : List A
  pub free_threads : List ℕ
  pub all_threads : ℕ
  pub time_to_die : Bool
  pub held : Bool
  pub deleted : ℕ → Bool
  pub handed : ℕ → Option A
  pub must_die : ℕ → Bool
  pub waiting : ℕ → Bool
  pub ended : ℕ → Bool
  pub done : List A

-- Where a thread stands. From `look` on in `run`: at the loop's test, at the load of its work, at the
-- store of null behind it, at the call of a work, in `return_or_get`, before `wait` and in it. At
-- `freed_access` a client has used a thread of the pool that is deleted.
pub data Place (A : Type 0) : Type 0 where
  idle : Place A
  add_test : A → Place A
  add_choose : A → Place A
  perform_store : ℕ → A → Place A
  perform_set : ℕ → Place A
  destroy_clear : Place A
  destroy_poll : Place A
  destroy_lock : Place A
  shutdown_test : ℕ → Place A
  shutdown_store : ℕ → Place A
  shutdown_set : ℕ → Place A
  shutdown_join : ℕ → Place A
  look : Place A
  load_work : Place A
  store_null : Option A → Place A
  call_work : A → Place A
  return_or_get : Place A
  event_wait : Place A
  in_wait : Place A
  returned : Place A
  freed_access : Place A

-- What an idle thread calls; `spurious` lets a thread wake up that nobody has notified.
pub data Call (A : Type 0) : Type 0 where
  add_work : A → Call A
  destroy : Call A
  spurious : Call A

-- `back` and `pop_back`: the last element, and the others.
unfoldable pub pop_back : List ℕ → Option (List ℕ × ℕ)
pop_back [] = none
pop_back (t ∷ ts) = elim (pop_back ts) [
  | none ↦ some ([], t)
  | some (others, last) ↦ some (t ∷ others, last)
]

module _ {A : Type 0} where
  unfoldable pub enter : Call A → Place A
  enter (add_work v) = add_test v
  enter destroy = destroy_clear
  enter spurious = idle

  -- `add_work` under the guard
  unfoldable pub choose : Pool A → A → Option (List ℕ × ℕ) → Pool A × Place A
  choose m v none = (record m { queued_work = m.queued_work ++ v ∷ [] }, idle)
  choose m v (some (others, t)) = (record m { free_threads = others }, perform_store t v)

  -- `return_or_get` of thread `i`
  unfoldable pub get_work : Pool A → ℕ → List A → Pool A × Place A
  get_work m i [] = (record m { free_threads = m.free_threads ++ i ∷ [] }, event_wait)
  get_work m i (v ∷ rest) = (record m { queued_work = rest }, call_work v)

  -- The loop over the work of thread `i`, from its test.
  unfoldable pub with_work : Option A → Place A
  with_work none = event_wait
  with_work (some v) = call_work v

  unfoldable pub wake : Call A → Bool → Place A
  wake spurious asleep = look
  wake c asleep = if asleep then in_wait else look

  -- The end of `destroy`, thread by thread.
  unfoldable pub kill_next : ℕ → Pool A → Pool A × Place A
  kill_next t m =
      if ltb t m.all_threads
      then (m, shutdown_test t)
      else (record m { free_threads = []; all_threads = 0; held = false }, idle)

  -- The end of `delete thread`, and on to the next one.
  unfoldable pub delete_thread : ℕ → Pool A → Pool A × Place A
  delete_thread t m = kill_next (t + 1) (record m { deleted = update m.deleted t true })

  unfoldable pub move : Call A → ℕ → Pool A → Place A → Pool A × Place A
  unfolding enter wake kill_next delete_thread
  move c i m idle = (m, enter c)
  move c i m (add_test v) = (m, if m.time_to_die then idle else add_choose v)
  move c i m (add_choose v) =
      if m.held then (m, add_choose v) else choose m v (pop_back m.free_threads)
  move c i m (perform_store t v) =
      if m.deleted t
      then (m, freed_access)
      else (record m { handed = update m.handed t (some v) }, perform_set t)
  move c i m (perform_set t) =
      if m.deleted t
      then (m, freed_access)
      else (record m { waiting = update m.waiting t false }, idle)
  move c i m destroy_clear =
      if m.held
      then (m, destroy_clear)
      else (record m { time_to_die = true; queued_work = [] }, destroy_poll)
  move c i m destroy_poll =
      if m.held
      then (m, destroy_poll)
      else (m, if m.all_threads == length m.free_threads then destroy_lock else destroy_poll)
  move c i m destroy_lock =
      if m.held then (m, destroy_lock) else kill_next 0 (record m { held = true })
  move c i m (shutdown_test t) = if m.must_die t then delete_thread t m else (m, shutdown_store t)
  move c i m (shutdown_store t) = (record m { must_die = update m.must_die t true }, shutdown_set t)
  move c i m (shutdown_set t) = (record m { waiting = update m.waiting t false }, shutdown_join t)
  move c i m (shutdown_join t) = if m.ended t then delete_thread t m else (m, shutdown_join t)
  move c i m look =
      if m.must_die i
      then (record m { ended = update m.ended i true }, returned)
      else (m, load_work)
  move c i m load_work = (m, store_null (m.handed i))
  move c i m (store_null v) = (record m { handed = update m.handed i none }, with_work v)
  move c i m (call_work v) = (record m { done = m.done ++ v ∷ [] }, return_or_get)
  move c i m return_or_get = if m.held then (m, return_or_get) else get_work m i m.queued_work
  move c i m event_wait = (record m { waiting = update m.waiting i true }, in_wait)
  move c i m in_wait = (m, wake c (m.waiting i))
  move c i m returned = (m, returned)
  move c i m freed_access = (m, freed_access)

-- The constructor: the threads from 0 on, which are all free at once.
unfoldable pub up_to : ℕ → List ℕ
up_to zero = []
up_to (suc k) = up_to k ++ k ∷ []

unfoldable pub new_pool : {A : Type 0} → ℕ → Pool A
new_pool size = record {
  queued_work = [];
  free_threads = up_to size;
  all_threads = size;
  time_to_die = false;
  held = false;
  deleted = λ _. false;
  handed = λ _. none;
  must_die = λ _. false;
  waiting = λ _. false;
  ended = λ _. false;
  done = [];
}
