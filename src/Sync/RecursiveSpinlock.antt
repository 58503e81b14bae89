-- ===== src/Sync/RecursiveSpinlock.antt =====
-- `recursive_spinlock` of lib/hope_thread/synchronization/spinlock.h, over the thread ids that
-- `get_thread_id` of lib/hope_thread/core/thread_id.h gives.
mod Invariant
pub mod Safety
pub mod Linux
mod Tests
use hope_threading.Prelude.{ℕ, zero, suc, ◌+◌, ◌-◌, ◌%◌, ◌^◌, ◌==◌, if◌then◌else◌}

-- `m_owner_id` and `m_recursion`
pub record Lock : Type 0 where
  pub owner : ℕ
  pub recursion : ℕ

-- Where a thread stands. The number is how many of its calls have taken the lock and not been undone;
-- it is no part of the code.
pub data Place : Type 0 where
  between : ℕ → Place
  check : ℕ → Place
  enter_again : ℕ → Place
  exchange : ℕ → Place
  set_one : ℕ → Place
  wait : ℕ → Place
  try_check : ℕ → Place
  try_again : ℕ → Place
  try_exchange : ℕ → Place
  try_count : ℕ → Place
  release : ℕ → Place
  free : ℕ → Place

-- What a thread calls next. An `unlock` by a thread that has not locked is left out, as misuse.
pub data Call : Type 0 where
  lock : Call
  try_lock : Call
  unlock : Call

start_call : Call → ℕ → Place
start_call lock d = check d
start_call try_lock d = try_check d
start_call unlock zero = between 0
start_call unlock (suc d) = release (suc d)

-- `m_recursion` is a std::size_t.
abbrev pub up : ℕ → ℕ
up r = (r + 1) % 2 ^ 64

abbrev pub down : ℕ → ℕ
down r = (r + 2 ^ 64 - 1) % 2 ^ 64

-- The body of `lock`: the load, the recursion branch, the compare-exchange with `Free`, the first
-- count, and the spinning load.
module _ (me : ℕ) where
  lock_check : Lock → ℕ → Lock × Place
  lock_check m d = (m, if m.owner == me then enter_again d else exchange d)

  lock_exchange : Lock → ℕ → Lock × Place
  lock_exchange m d = if m.owner == 0 then (record m { owner = me }, set_one d) else (m, wait d)

  -- The load of `try_lock`; its compare-exchange is tried only if the load has seen `Free`.
  try_lock_check : Lock → ℕ → Lock × Place
  try_lock_check m d =
      (m, if m.owner == me then try_again d else if m.owner == 0 then try_exchange d else between d)

  try_lock_exchange : Lock → ℕ → Lock × Place
  try_lock_exchange m d =
      if m.owner == 0 then (record m { owner = me }, try_count d) else (m, between d)

-- `--m_recursion`, and the test that follows it
unlock_down : Lock → ℕ → Lock × Place
unlock_down m d =
    let r = down m.recursion in
    (record m { recursion = r }, if r == 0 then free d else between (d - 1))

-- Thread `i` has the id `id i`, which the code casts to uint32_t.
unfoldable pub move : (ℕ → ℕ) → Call → ℕ → Lock → Place → Lock × Place
unfolding start_call lock_check lock_exchange try_lock_check try_lock_exchange unlock_down
move id c i m (between d) = (m, start_call c d)
move id c i m (check d) = lock_check (id i % 2 ^ 32) m d
move id c i m (enter_again d) = (record m { recursion = up m.recursion }, between (d + 1))
move id c i m (exchange d) = lock_exchange (id i % 2 ^ 32) m d
move id c i m (set_one d) = (record m { recursion = 1 }, between (d + 1))
move id c i m (wait d) = (m, if m.owner == 0 then exchange d else wait d)
move id c i m (try_check d) = try_lock_check (id i % 2 ^ 32) m d
move id c i m (try_again d) = (record m { recursion = up m.recursion }, between (d + 1))
move id c i m (try_exchange d) = try_lock_exchange (id i % 2 ^ 32) m d
move id c i m (try_count d) = (record m { recursion = up m.recursion }, between (d + 1))
move id c i m (release d) = unlock_down m d
move id c i m (free d) = (record m { owner = 0 }, between (d - 1))
