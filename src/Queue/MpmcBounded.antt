-- ===== src/Queue/MpmcBounded.antt =====
-- `mpmc_bounded_queue` of lib/hope_thread/containers/queue/mpmc_bounded_queue.h: a ring of cells, each
-- with a sequence number that says which position may use it next.
mod Invariant
mod Taking
mod Publishing
mod Accesses
mod Moved
mod Keeps
pub mod Safety
pub mod Refusal
mod Tests
use hope_threading.Prelude.{
  ℕ, ◌+◌, ◌-◌, ◌%◌, ◌^◌, Bool, true, false, Option, none, some, List, [], ◌∷◌, ◌++◌, leb, ◌==◌,
  if◌then◌else◌,
}
use hope_threading.Threads.{update}

-- `m_buffer` by its sequence numbers and its items, and the two positions. `entered` is no part of the
-- code: the items in the order of the exchanges that gave them their positions.
pub record Queue (A : Type 0) : Type 0 where
  pub sequence : ℕ → ℕ
  pub item : ℕ → A
  pub enqueue_pos : ℕ
  pub dequeue_pos : ℕ
  pub entered : List A

-- What a thread's last call has returned.
pub data Result (A : Type 0) : Type 0 where
  nothing : Result A
  enqueued : Bool → Result A
  dequeued : Option A → Result A

-- Where a thread stands. In either call: before the load of the position, before the load of the
-- sequence number, at the exchange, at the access of the item, and at the store of the sequence number.
pub data Place (A : Type 0) : Type 0 where
  idle : Result A → Place A
  enqueue_load : A → Place A
  enqueue_look : A → ℕ → Place A
  enqueue_exchange : A → ℕ → Place A
  enqueue_write : A → ℕ → Place A
  enqueue_publish : ℕ → Place A
  dequeue_load : Place A
  dequeue_look : ℕ → Place A
  dequeue_exchange : ℕ → Place A
  dequeue_read : ℕ → Place A
  dequeue_publish : A → ℕ → Place A

pub data Call (A : Type 0) : Type 0 where
  try_enqueue : A → Call A
  try_dequeue : Call A

abbrev pub wrap : ℕ → ℕ
wrap n = n % 2 ^ 64

-- `(intptr_t)a - (intptr_t)b`, by its bits, and whether it is negative
abbrev pub difference : ℕ → ℕ → ℕ
difference a b = (a + 2 ^ 64 - b) % 2 ^ 64

abbrev pub negative : ℕ → Bool
negative d = leb (2 ^ 63) d

module _ {A : Type 0} where
  enter : Call A → Place A
  enter (try_enqueue v) = enqueue_load v
  enter try_dequeue = dequeue_load

  -- The constructor.
  pub new : A → Queue A
  new blank = record {
    sequence = λ i. i;
    item = λ _. blank;
    enqueue_pos = 0;
    dequeue_pos = 0;
    entered = [];
  }

  -- The three branches on `dif` in `try_enqueue`, and its exchange, which on failure puts what it has
  -- found into `pos`.
  look_enqueue : A → ℕ → ℕ → Place A
  look_enqueue v pos dif =
      if dif == 0
      then enqueue_exchange v pos
      else if negative dif
      then idle (enqueued false)
      else enqueue_load v

  exchange_enqueue : Queue A → A → ℕ → Queue A × Place A
  exchange_enqueue q v pos =
      if q.enqueue_pos == pos
      then (
        record q { enqueue_pos = wrap (pos + 1); entered = q.entered ++ v ∷ [] },
        enqueue_write v pos,
      )
      else (q, enqueue_look v q.enqueue_pos)

  look_dequeue : ℕ → ℕ → Place A
  look_dequeue pos dif =
      if dif == 0
      then dequeue_exchange pos
      else if negative dif
      then idle (dequeued none)
      else dequeue_load

  exchange_dequeue : Queue A → ℕ → Queue A × Place A
  exchange_dequeue q pos =
      if q.dequeue_pos == pos
      then (record q { dequeue_pos = wrap (pos + 1) }, dequeue_read pos)
      else (q, dequeue_look q.dequeue_pos)

  -- With `size` cells; `pos & m_buffer_mask` is `pos % size`.
  unfoldable pub move : ℕ → Call A → ℕ → Queue A → Place A → Queue A × Place A
  unfolding enter look_enqueue exchange_enqueue look_dequeue exchange_dequeue
  move size c i q (idle r) = (q, enter c)
  move size c i q (enqueue_load v) = (q, enqueue_look v q.enqueue_pos)
  move size c i q (enqueue_look v pos) =
      (q, look_enqueue v pos (difference (q.sequence (pos % size)) pos))
  move size c i q (enqueue_exchange v pos) = exchange_enqueue q v pos
  move size c i q (enqueue_write v pos) =
      (record q { item = update q.item (pos % size) v }, enqueue_publish pos)
  move size c i q (enqueue_publish pos) = (
    record q { sequence = update q.sequence (pos % size) (wrap (pos + 1)) },
    idle (enqueued true),
  )
  move size c i q dequeue_load = (q, dequeue_look q.dequeue_pos)
  move size c i q (dequeue_look pos) =
      (q, look_dequeue pos (difference (q.sequence (pos % size)) (wrap (pos + 1))))
  move size c i q (dequeue_exchange pos) = exchange_dequeue q pos
  move size c i q (dequeue_read pos) = (q, dequeue_publish (q.item (pos % size)) pos)
  move size c i q (dequeue_publish v pos) = (
    record q { sequence = update q.sequence (pos % size) (wrap (pos + (size - 1) + 1)) },
    idle (dequeued (some v)),
  )
