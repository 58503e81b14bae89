-- ===== src/Sync/RwSpinlock.antt =====
-- `rw_spinlock` of lib/hope_thread/synchronization/spinlock.h: one 32-bit word, the writers in its
-- upper 12 bits and the readers in its lower 20.
mod Invariant
pub mod Safety
mod Tests
use hope_threading.Prelude.{ℕ, ◌+◌, ◌-◌, ◌*◌, ◌/◌, ◌%◌, ◌^◌, ltb, ◌==◌, if◌then◌else◌}

-- `++m_lock` and `m_lock += k`, `--m_lock` and `m_lock -= k`: the word wraps.
abbrev pub add32 : ℕ → ℕ → ℕ
add32 m k = (m + k) % 2 ^ 32

abbrev pub sub32 : ℕ → ℕ → ℕ
sub32 m k = (m + 2 ^ 32 - k) % 2 ^ 32

abbrev pub one_writer : ℕ
one_writer = 0x100000

-- `m & 0xfff00000`, at a word of 32 bits
abbrev pub writer_bits : ℕ → ℕ
writer_bits m = m / one_writer * one_writer

-- Where a thread stands. It is `idle` between two calls; at a `try` it is at the head of the loop, at
-- an `undo` it has failed and takes its mark back, at a `wait` it spins until no writer is there.
pub data Place : Type 0 where
  idle : Place
  shared_try : Place
  shared_undo : Place
  shared_wait : Place
  reading : Place
  exclusive_try : Place
  exclusive_undo : Place
  exclusive_wait : Place
  writing : Place

-- The call that an idle thread makes next.
pub data Call : Type 0 where
  lock_shared : Call
  lock : Call

enter : Call → Place
enter lock_shared = shared_try
enter lock = exclusive_try

try_shared : ℕ → ℕ × Place
try_shared m = let m' = add32 m 1 in (m', if writer_bits m' == 0 then reading else shared_undo)

try_exclusive : ℕ → ℕ × Place
try_exclusive m =
    let m' = add32 m one_writer in (m', if m' == one_writer then writing else exclusive_undo)

-- One round of a spinning loop, which goes on at `next` when no writer is there.
wait : Place → Place → ℕ → ℕ × Place
wait here next m = (m, if writer_bits m == 0 then next else here)

-- A thread that holds the lock makes the matching `unlock_shared` or `unlock` next.
unfoldable pub move : Call → ℕ → ℕ → Place → ℕ × Place
unfolding enter try_shared try_exclusive wait
move c i m idle = (m, enter c)
move c i m shared_try = try_shared m
move c i m shared_undo = (sub32 m 1, shared_wait)
move c i m shared_wait = wait shared_wait shared_try m
move c i m reading = (sub32 m 1, idle)
move c i m exclusive_try = try_exclusive m
move c i m exclusive_undo = (sub32 m one_writer, exclusive_wait)
move c i m exclusive_wait = wait exclusive_wait exclusive_try m
move c i m writing = (sub32 m one_writer, idle)
