-- ===== src/Queue/SpscBounded.antt =====
-- `spsc_bounded_queue` of lib/hope_thread/containers/queue/spsc_bounded_queue.h, a call at a time.
pub mod Exchanges
mod Tests
use hope_threading.Prelude.{
  ℕ, ◌+◌, ◌-◌, ◌%◌, ◌^◌, Bool, true, false, Option, none, some, ltb, ◌==◌, if◌then◌else◌,
}
use hope_threading.Threads.{update}

-- `m_buffer_size`, `m_head`, `m_tail` and the values of `m_buffer`
pub record Queue (A : Type 0) : Type 0 where
  pub size : ℕ
  pub head : ℕ
  pub tail : ℕ
  pub value : ℕ → A

module _ {A : Type 0} where
  -- The constructor, with `size` default values.
  unfoldable pub new : ℕ → A → Queue A
  new size blank = record { size = size; head = 0; tail = 0; value = λ _. blank }

  -- `m_head.fetch_add(cur_head + 1)` adds to what is there.
  unfoldable pub try_enqueue : Queue A → A → Queue A × Bool
  try_enqueue q v = if ltb q.size ((q.head + 2 ^ 64 - q.tail) % 2 ^ 64) then (q, false) else (
    record q {
      value = update q.value (q.head % q.size) v;
      head = (q.head + (q.head + 1)) % 2 ^ 64;
    },
    true,
  )

  unfoldable pub try_dequeue : Queue A → Queue A × Option A
  try_dequeue q =
      if q.head == q.tail
      then (q, none)
      else (record q { tail = (q.tail + (q.tail + 1)) % 2 ^ 64 }, some (q.value (q.tail % q.size)))
