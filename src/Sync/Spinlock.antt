-- ===== src/Sync/Spinlock.antt =====
-- `spinlock` of lib/hope_thread/synchronization/spinlock.h: a flag that a thread sets by an exchange.
pub mod Invariant
pub mod Safety
mod Tests
use hope_threading.Prelude.{ℕ, Bool, true, false, if◌then◌else◌}

-- Where a thread stands: at the exchange or the spinning loop of `lock`, at the load or the exchange
-- of `try_lock`, or between two calls, `idle` without the lock and `holding` with it.
pub data Place : Type 0 where
  idle : Place
  exchange : Place
  wait : Place
  try_load : Place
  try_exchange : Place
  holding : Place

-- What an idle thread calls next.
pub data Call : Type 0 where
  lock : Call
  try_lock : Call

enter : Call → Place
enter lock = exchange
enter try_lock = try_load

-- A thread that holds the lock calls `unlock` next. A `try_lock` that fails returns to `idle`.
unfoldable pub move : Call → ℕ → Bool → Place → Bool × Place
unfolding enter
move c i m idle = (m, enter c)
move c i m exchange = (true, if m then wait else holding)
move c i m wait = (m, if m then wait else exchange)
move c i m try_load = (m, if m then idle else try_exchange)
move c i m try_exchange = (true, if m then idle else holding)
move c i m holding = (false, idle)
