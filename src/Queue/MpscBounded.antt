-- ===== src/Queue/MpscBounded.antt =====
-- `mpsc_bounded_queue` of lib/hope_thread/containers/queue/mpsc_bounded_queue.h, a call at a time: a
-- producer's exchange of the head meets no other thread, so it succeeds in its first round.
mod Contents
pub mod Refine
pub mod Overrun
mod Tests
use hope_threading.Prelude.{
  ℕ, ◌+◌, ◌-◌, ◌%◌, ◌^◌, Bool, true, false, Option, none, some, ltb, ◌==◌, if◌then◌else◌,
}
use hope_threading.Threads.{update}

-- `m_buffer_size`, `m_head`, `m_tail`, and `m_buffer` by its values and its flags
pub record Queue (A : Type 0) : Type 0 where
  pub size : ℕ
  pub head : ℕ
  pub tail : ℕ
  pub value : ℕ → A
  pub ready : ℕ → Bool

module _ {A : Type 0} where
  unfoldable pub new : ℕ → A → Queue A
  new size blank = record {
    size = size;
    head = 0;
    tail = 0;
    value = λ _. blank;
    ready = λ _. false;
  }

  -- `cur_head & m_buffer_mask` is `head % size`.
  unfoldable pub try_enqueue : Queue A → A → Queue A × Bool
  try_enqueue q v = if ltb q.size ((q.head + 2 ^ 64 - q.tail) % 2 ^ 64) then (q, false) else (
    record q {
      head = (q.head + 1) % 2 ^ 64;
      value = update q.value (q.head % q.size) v;
      ready = update q.ready (q.head % q.size) true;
    },
    true,
  )

  take_ready : Queue A → Queue A × Option A
  take_ready q =
      if q.ready (q.tail % q.size)
      then (
        record q { ready = update q.ready (q.tail % q.size) false; tail = (q.tail + 1) % 2 ^ 64 },
        some (q.value (q.tail % q.size)),
      )
      else (q, none)

  unfoldable pub try_dequeue : Queue A → Queue A × Option A
  unfolding take_ready
  try_dequeue q = if q.head == q.tail then (q, none) else take_ready q
