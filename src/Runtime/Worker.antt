-- ===== src/Runtime/Worker.antt =====
-- `async_worker` and `async_worker_impl` of lib/hope_thread/runtime/worker_thread.h. Thread 0 runs
-- `run`; the others call `add` and `stop`. `m_queued_work` is
-- the queue of Queue/MpscLinked, whose moves are moves of the threads here.
mod Taken
mod Moves
pub mod Order
pub mod Lost
mod Tests
use hope_threading.Prelude.{ℕ, some, Bool, true, false, List, [], ◌∷◌, ◌++◌, if◌then◌else◌}
use hope_threading.Queue.MpscLinked as MpscLinked

-- `m_queued_work`, `m_work_added`, the stop token, whether the worker sleeps in `wait`, and whether `run`
-- has returned. `done` is no part of the code: what the payload has been called with, in order.
pub record Worker (A : Type 0) : Type 0 where
  pub queued_work : MpscLinked.Queue A
  pub work_added : Bool
  pub stop_requested : Bool
  pub sleeping : Bool
  pub ended : Bool
  pub done : List A

-- Where a thread stands. In `add` inside `enqueue`, at the store and at the notification; in `stop`; from
-- `look` on in `run`: at the loop's test, inside `try_dequeue`, at the payload's call, at the store of false, in `wait` before its load, asleep, and returned.
pub data Place (A : Type 0) : Type 0 where
  idle : Place A
  add_enqueue : MpscLinked.Place A → Place A
  add_store : Place A
  add_notify : Place A
  stop_store : Place A
  stop_notify : Place A
  stop_join : Place A
  look : Place A
  drain : MpscLinked.Place A → Place A
  call_payload : A → Place A
  clear : Place A
  wait : Place A
  asleep : Place A
  returned : Place A

pub data Call (A : Type 0) : Type 0 where
  add : A → Call A
  stop : Call A

module _ {A : Type 0} where
  unfoldable pub start_call : Call A → Worker A → Worker A × Place A
  start_call (add v) m = (m, add_enqueue (MpscLinked.enqueue_new v))
  start_call stop m = (record m { stop_requested = true }, stop_store)

  -- A call of the queue that has returned.
  unfoldable pub arrived_add : MpscLinked.Place A → Place A
  arrived_add (MpscLinked.idle r) = add_store
  arrived_add p = add_enqueue p

  unfoldable pub arrived_drain : MpscLinked.Place A → Place A
  arrived_drain (MpscLinked.idle (MpscLinked.dequeued (some v))) = call_payload v
  arrived_drain (MpscLinked.idle r) = clear
  arrived_drain p = drain p

  -- A new worker without work.
  unfoldable pub new_worker : A → Worker A
  new_worker blank = record {
    queued_work = MpscLinked.new blank;
    work_added = false;
    stop_requested = false;
    sleeping = false;
    ended = false;
    done = [];
  }

  -- `blank` is a default value. `wait(false)` returns if it loads true, and else sleeps until it is notified, to load again. The
  -- thread that has called `stop` joins the worker.
  unfoldable pub move : A → Call A → ℕ → Worker A → Place A → Worker A × Place A
  unfolding start_call
  move blank c i m idle = start_call c m
  move blank c i m (add_enqueue p) =
      let (q, p') = MpscLinked.move blank (MpscLinked.enqueue blank) i m.queued_work p in
      (record m { queued_work = q }, arrived_add p')
  move blank c i m add_store = (record m { work_added = true }, add_notify)
  move blank c i m add_notify = (record m { sleeping = false }, idle)
  move blank c i m stop_store = (record m { work_added = true }, stop_notify)
  move blank c i m stop_notify = (record m { sleeping = false }, stop_join)
  move blank c i m stop_join = (m, if m.ended then idle else stop_join)
  move blank c i m look =
      if m.stop_requested
      then (record m { ended = true }, returned)
      else (m, drain MpscLinked.dequeue_load)
  move blank c i m (drain p) =
      let (q, p') = MpscLinked.move blank MpscLinked.try_dequeue i m.queued_work p in
      (record m { queued_work = q }, arrived_drain p')
  move blank c i m (call_payload v) =
      (record m { done = m.done ++ v ∷ [] }, drain MpscLinked.dequeue_load)
  move blank c i m clear = (record m { work_added = false }, wait)
  move blank c i m wait = if m.work_added then (m, look) else (record m { sleeping = true }, asleep)
  move blank c i m asleep = (m, if m.sleeping then asleep else wait)
  move blank c i m returned = (m, returned)
