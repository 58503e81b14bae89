-- ===== src/Core/ThreadId.antt =====
-- `get_thread_id` of lib/hope_thread/core/thread_id.h in the branch for Linux. (The other branches
-- return what the operating system gives.)
use hope_threading.Prelude.{ℕ}

-- The id that thread `i` gets: the same for all.
abbrev pub linux_thread_id : ℕ → ℕ
linux_thread_id i = 0
