-- ===== src/Sync/RecursiveRwSpinlock.antt =====
-- `recursive_rw_spinlock` of lib/hope_thread/synchronization/spinlock.h: a 64-bit word with the owner's
-- id above the writers' 12 and the readers' 20 bits, and the depth of the owner's calls of `lock`.
mod Nested
mod Moves
mod Reached
pub mod Safety
pub mod Linux
mod Tests
use hope_threading.Prelude.{ℕ, zero, suc, ◌+◌, ◌-◌, ◌*◌, ◌/◌, ◌%◌, ◌^◌, ◌==◌, if◌then◌else◌}
use hope_threading.Threads.{update}

-- `m_lock` and `m_write_recursion_depth`
pub record Lock : Type 0 where
  pub word : ℕ
  pub depth : ℕ

-- Where a thread stands. The numbers are how many of its calls of `lock_shared` and of `lock` it has
-- not undone; they are no part of the code.
pub data Place : Type 0 where
  between : ℕ → ℕ → Place
  shared_check : ℕ → ℕ → Place
  shared_try : ℕ → ℕ → Place
  shared_undo : ℕ → ℕ → Place
  shared_wait : ℕ → ℕ → Place
  shared_look : ℕ → ℕ → Place
  shared_leave : ℕ → ℕ → Place
  exclusive_check : ℕ → ℕ → Place
  exclusive_deeper : ℕ → ℕ → Place
  exclusive_try : ℕ → ℕ → Place
  exclusive_own : ℕ → ℕ → Place
  exclusive_first : ℕ → ℕ → Place
  exclusive_undo : ℕ → ℕ → Place
  exclusive_wait : ℕ → ℕ → Place
  exclusive_down : ℕ → ℕ → Place
  exclusive_disown : ℕ → ℕ → Place
  exclusive_leave : ℕ → ℕ → Place

-- What a thread calls next. A call that undoes nothing is left out, as misuse.
pub data Call : Type 0 where
  lock_shared : Call
  unlock_shared : Call
  lock : Call
  unlock : Call

start_call : Call → ℕ → ℕ → Place
start_call lock_shared r w = shared_check r w
start_call unlock_shared zero w = between zero w
start_call unlock_shared (suc r) w = shared_look (suc r) w
start_call lock r w = exclusive_check r w
start_call unlock r zero = between r zero
start_call unlock r (suc w) = exclusive_down r (suc w)

-- The word and the depth wrap at 64 bits.
abbrev pub add64 : ℕ → ℕ → ℕ
add64 m k = (m + k) % 2 ^ 64

abbrev pub sub64 : ℕ → ℕ → ℕ
sub64 m k = (m + 2 ^ 64 - k) % 2 ^ 64

-- `m_lock & ExclusiveMask`, by its 12 bits, and the id above the lower half.
abbrev pub writers : ℕ → ℕ
writers m = m / 0x100000 % 2 ^ 12

abbrev pub owner_id : ℕ → ℕ
owner_id m = m / 2 ^ 32

-- `this_id`, shifted
abbrev pub owner_bits : ℕ → ℕ
owner_bits me = me * 2 ^ 32 % 2 ^ 64

-- Each adds to the word, or takes from it, and goes on.
abbrev pub added : Lock → ℕ → Lock
added m k = record m { word = add64 m.word k }

abbrev pub taken : Lock → ℕ → Lock
taken m k = record m { word = sub64 m.word k }

shared_enter : Lock → ℕ → ℕ → Lock × Place
shared_enter m r w =
    let m' = added m 1 in (m', if writers m'.word == 0 then between (r + 1) w else shared_undo r w)

exclusive_enter : Lock → ℕ → ℕ → Lock × Place
exclusive_enter m r w =
    let m' = added m 0x100000 in
    (m', if m'.word == 0x100000 then exclusive_own r w else exclusive_undo r w)

exclusive_depth : Lock → ℕ → ℕ → Lock × Place
exclusive_depth m r w =
    let m' = record m { depth = sub64 m.depth 1 } in
    (m', if m'.depth == 0 then exclusive_disown r w else between r (w - 1))

-- Thread `i` has the id `id i`. `check_for_recursion` is the load at `shared_check` and
-- `exclusive_check`.
unfoldable pub move : (ℕ → ℕ) → Call → ℕ → Lock → Place → Lock × Place
unfolding start_call shared_enter exclusive_enter exclusive_depth
move id c i m (between r w) = (m, start_call c r w)
move id c i m (shared_check r w) =
    (m, if owner_id m.word == id i % 2 ^ 32 then between (r + 1) w else shared_try r w)
move id c i m (shared_try r w) = shared_enter m r w
move id c i m (shared_undo r w) = (taken m 1, shared_wait r w)
move id c i m (shared_wait r w) =
    (m, if writers m.word == 0 then shared_try r w else shared_wait r w)
move id c i m (shared_look r w) = (m, if m.depth == 0 then shared_leave r w else between (r - 1) w)
move id c i m (shared_leave r w) = (taken m 1, between (r - 1) w)
move id c i m (exclusive_check r w) =
    (m, if owner_id m.word == id i % 2 ^ 32 then exclusive_deeper r w else exclusive_try r w)
move id c i m (exclusive_deeper r w) = (record m { depth = add64 m.depth 1 }, between r (w + 1))
move id c i m (exclusive_try r w) = exclusive_enter m r w
move id c i m (exclusive_own r w) = (added m (owner_bits (id i)), exclusive_first r w)
move id c i m (exclusive_first r w) = (record m { depth = 1 }, between r (w + 1))
move id c i m (exclusive_undo r w) = (taken m 0x100000, exclusive_wait r w)
move id c i m (exclusive_wait r w) =
    (m, if writers m.word == 0 then exclusive_try r w else exclusive_wait r w)
move id c i m (exclusive_down r w) = exclusive_depth m r w
move id c i m (exclusive_disown r w) = (taken m (owner_bits (id i)), exclusive_leave r w)
move id c i m (exclusive_leave r w) = (taken m 0x100000, between r (w - 1))
