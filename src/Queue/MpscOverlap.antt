-- ===== src/Queue/MpscOverlap.antt =====
-- `mpsc_bounded_queue` of lib/hope_thread/containers/queue/mpsc_bounded_queue.h under calls that overlap,
-- an access at a time. `m_tail` is no atomic variable; each access of it is a step all the same.
mod Bounds
mod Invariant
mod Keeps
mod Published
mod Consumed
mod Moved
mod Reached
pub mod Safety
mod Tests
use hope_threading.Prelude.{
  ℕ, ◌+◌, ◌-◌, ◌%◌, ◌^◌, Bool, true, false, Option, none, some, List, [], ◌∷◌, ◌++◌, ltb, ◌==◌,
  if◌then◌else◌,
}
use hope_threading.Threads.{update}

-- `m_head`, `m_tail`, and `m_buffer` by its values and its flags. `entered` and `overfilled` are no part of
-- the code: the items in the order of the exchanges, and whether one of these found the queue full.
pub record Queue (A : Type 0) : Type 0 where
  pub head : ℕ
  pub tail : ℕ
  pub value : ℕ → A
  pub ready : ℕ → Bool
  pub entered : List A
  pub overfilled : Bool

-- What a thread's last call has returned.
pub data Result (A : Type 0) : Type 0 where
  nothing : Result A
  enqueued : Bool → Result A
  dequeued : Option A → Result A

-- Where a thread stands. In `try_enqueue`: at the load of the head, at the test with the tail, at the
-- exchange, at the store of the value and of the flag. In `try_dequeue`: at the test of head and tail, at
-- the load of the flag, at the read of the value, at the store of the flag, and at the new tail.
pub data Place (A : Type 0) : Type 0 where
  idle : Result A → Place A
  enqueue_load : A → Place A
  enqueue_test : A → ℕ → Place A
  enqueue_exchange : A → ℕ → Place A
  enqueue_write : A → ℕ → Place A
  enqueue_ready : ℕ → Place A
  dequeue_test : Place A
  dequeue_look : Place A
  dequeue_read : Place A
  dequeue_clear : A → Place A
  dequeue_move : A → Place A

pub data Call (A : Type 0) : Type 0 where
  try_enqueue : A → Call A
  try_dequeue : Call A

unfoldable pub new : {A : Type 0} → A → Queue A
new blank = record {
  head = 0;
  tail = 0;
  value = λ _. blank;
  ready = λ _. false;
  entered = [];
  overfilled = false;
}

-- `size` is the template's parameter `Size`; `pos & m_buffer_mask` is `pos % size`.
module _ {A : Type 0} (size : ℕ) where
  enter : Call A → Place A
  enter (try_enqueue v) = enqueue_load v
  enter try_dequeue = dequeue_test

  -- A failed exchange gives the head that it has found.
  unfoldable pub exchanged : Queue A → A → ℕ → Queue A × Place A
  exchanged q v pos =
      if q.head == pos
      then (
        record q {
          head = (pos + 1) % 2 ^ 64;
          entered = q.entered ++ v ∷ [];
          overfilled = if ltb q.head (q.tail + size) then q.overfilled else true;
        },
        enqueue_write v pos,
      )
      else (q, enqueue_test v q.head)

  unfoldable pub move : Call A → ℕ → Queue A → Place A → Queue A × Place A
  unfolding enter
  move c i q (idle r) = (q, enter c)
  move c i q (enqueue_load v) = (q, enqueue_test v q.head)
  move c i q (enqueue_test v pos) = (
    q,
    if ltb size ((pos + 2 ^ 64 - q.tail) % 2 ^ 64)
        then idle (enqueued false)
        else enqueue_exchange v pos,
  )
  move c i q (enqueue_exchange v pos) = exchanged q v pos
  move c i q (enqueue_write v pos) =
      (record q { value = update q.value (pos % size) v }, enqueue_ready pos)
  move c i q (enqueue_ready pos) =
      (record q { ready = update q.ready (pos % size) true }, idle (enqueued true))
  move c i q dequeue_test = (q, if q.head == q.tail then idle (dequeued none) else dequeue_look)
  move c i q dequeue_look =
      (q, if q.ready (q.tail % size) then dequeue_read else idle (dequeued none))
  move c i q dequeue_read = (q, dequeue_clear (q.value (q.tail % size)))
  move c i q (dequeue_clear v) =
      (record q { ready = update q.ready (q.tail % size) false }, dequeue_move v)
  move c i q (dequeue_move v) =
      (record q { tail = (q.tail + 1) % 2 ^ 64 }, idle (dequeued (some v)))
