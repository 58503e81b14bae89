-- ===== src/Queue/SpmcMessage.antt =====
-- `spmc_bounded_message_queue` of lib/hope_thread/containers/queue/spmc_bounded_message_queue.h, a call
-- at a time: each consumer has a position of its own and gets every message; the writer waits for none.
mod Log
pub mod Delivery
mod Tests
use hope_threading.Prelude.{ℕ, ◌+◌, ◌%◌, ◌^◌, Bool, true, Option, none, some, ◌==◌, if◌then◌else◌}
use hope_threading.Threads.{update}

-- `m_writer_pos` and `m_buffer`; `Size` is a parameter of the operations.
pub record Queue (A : Type 0) : Type 0 where
  pub writer_pos : ℕ
  pub buffer : ℕ → A

-- `consumer`: `m_local_read_position`
pub record Consumer : Type 0 where
  pub read_position : ℕ

module _ {A : Type 0} where
  -- The constructor of `consumer`, by `create_consumer`.
  unfoldable pub create_consumer : Queue A → Consumer
  create_consumer q = record { read_position = q.writer_pos }

  -- `position & (Size - 1)` is `position % size`. It always succeeds.
  unfoldable pub try_enqueue : ℕ → Queue A → A → Queue A × Bool
  try_enqueue size q item = (
    record q {
      buffer = update q.buffer (q.writer_pos % size) item;
      writer_pos = (q.writer_pos + 1) % 2 ^ 64;
    },
    true,
  )

  unfoldable pub try_dequeue : ℕ → Queue A → Consumer → Consumer × Option A
  try_dequeue size q c = if q.writer_pos == c.read_position then (c, none) else (
    record { read_position = (c.read_position + 1) % 2 ^ 64 },
    some (q.buffer (c.read_position % size)),
  )
