-- ===== src/Queue/SpmcOverlap.antt =====
-- `spmc_bounded_message_queue` of lib/hope_thread/containers/queue/spmc_bounded_message_queue.h under
-- calls that overlap, an access at a time. A message is copied a unit at a time, as the assignment of
-- a type that is not atomic may.
mod Invariant
mod Reached
pub mod Safety
mod Tests
use hope_threading.Prelude.{
  ℕ, ◌+◌, ◌%◌, ◌^◌, Bool, true, Option, none, some, List, [], ◌∷◌, ◌++◌, ◌==◌, ltb, if◌then◌else◌,
}
use hope_threading.Threads.{update}

-- A message by its units; only those below the number of units are copied.
abbrev pub Message : Type 0 → Type 0
Message A = ℕ → A

-- `m_writer_pos` and `m_buffer`. `log` is no part of the code: the messages in the order in which
-- `try_enqueue` has begun with them.
pub record Queue (A : Type 0) : Type 0 where
  pub writer_pos : ℕ
  pub buffer : ℕ → Message A
  pub log : List (Message A)

-- Where a thread stands: in no call and without a consumer; in `try_enqueue` at the load of the position,
-- at the copy of the message with the number of units written, and at the store of the position; in
-- the constructor of `consumer`; in no call, with a consumer at `m_local_read_position` and what its
-- last call has returned; in `try_dequeue` at the load of the writer's position, and at the copy of the
-- message into `data` with the number of units read.
pub data Place (A : Type 0) : Type 0 where
  outside : Place A
  enqueue_load : Message A → Place A
  enqueue_write : Message A → ℕ → ℕ → Place A
  enqueue_store : ℕ → Place A
  enqueued : Bool → Place A
  consumer_load : Place A
  consumer : ℕ → Option (Message A) → Place A
  dequeue_load : ℕ → Message A → Place A
  dequeue_read : ℕ → Message A → ℕ → Place A

pub data Call (A : Type 0) : Type 0 where
  try_enqueue : Message A → Call A
  create_consumer : Call A
  try_dequeue : Message A → Call A

unfoldable pub new : {A : Type 0} → A → Queue A
new blank = record { writer_pos = 0; buffer = λ _ _. blank; log = [] }

-- `Size` and the number of units of `T` are parameters; `position & (Size - 1)` is `position % size`.
module _ {A : Type 0} (size units : ℕ) where
  -- `try_dequeue` is a call of a consumer, for which a thread without one makes one.
  enter : Call A → Place A → Place A
  enter (try_enqueue v) p = enqueue_load v
  enter (try_dequeue into) (consumer pos r) = dequeue_load pos into
  enter c p = consumer_load

  unfoldable pub move : Call A → ℕ → Queue A → Place A → Queue A × Place A
  unfolding enter
  move c i q (enqueue_load v) = (record q { log = q.log ++ v ∷ [] }, enqueue_write v q.writer_pos 0)
  move c i q (enqueue_write v pos k) =
      if ltb k units
      then (
        record q { buffer = update q.buffer (pos % size) (update (q.buffer (pos % size)) k (v k)) },
        enqueue_write v pos (k + 1),
      )
      else (q, enqueue_store pos)
  move c i q (enqueue_store pos) = (record q { writer_pos = (pos + 1) % 2 ^ 64 }, enqueued true)
  move c i q consumer_load = (q, consumer q.writer_pos none)
  move c i q (dequeue_load pos into) =
      (q, if q.writer_pos == pos then consumer pos none else dequeue_read pos into 0)
  move c i q (dequeue_read pos into k) = (
    q,
    if ltb k units
        then dequeue_read pos (update into k (q.buffer (pos % size) k)) (k + 1)
        else consumer ((pos + 1) % 2 ^ 64) (some into),
  )
  move c i q p = (q, enter c p)
