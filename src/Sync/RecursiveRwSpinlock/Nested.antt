-- ===== src/Sync/RecursiveRwSpinlock/Nested.antt =====
-- What each thread adds to the word and the depth of `recursive_rw_spinlock`, when calls are nested.
use hope_threading.Prelude.{
  ℕ, zero, suc, ◌+◌, ◌*◌, ◌^◌, ◌≤◌, ◌<◌, ◌≡◌, ◌⊎◌, ◌≢◌, Bool, true, ltb, ◌==◌, if◌then◌else◌,
}
use hope_threading.Sync.RecursiveRwSpinlock.{
  Lock, Place, Call, lock_shared, lock, unlock, move, owner_id, between, shared_check, shared_try,
  shared_undo, shared_wait, shared_look, shared_leave, exclusive_check, exclusive_deeper,
  exclusive_try, exclusive_own, exclusive_first, exclusive_undo, exclusive_wait, exclusive_down,
  exclusive_disown, exclusive_leave,
}

-- A thread has at most 255 calls of a kind to undo, and undoes its calls of `lock_shared` before the
-- `lock` around them.
abbrev pub allowed : Call → Place → Bool
allowed lock_shared (between r w) = ltb r 255
allowed lock (between r w) = ltb w 255
allowed unlock (between r w) = if w == 1 then r == 0 else true
allowed _ _ = true

abbrev pub nested_move : (ℕ → ℕ) → Call → ℕ → Lock → Place → Lock × Place
nested_move id c i m p = if allowed c p then move id c i m p else (m, p)

-- The calls of `lock_shared` that the word counts: those outside `lock`.
abbrev counted : ℕ → ℕ → ℕ
counted r zero = r
counted r (suc w) = 0

abbrev pub reads : Place → ℕ
reads (between r w) = counted r w
reads (shared_check r w) = counted r w
reads (shared_try r w) = r
reads (shared_undo r w) = r
reads (shared_wait r w) = r
reads (shared_look r w) = counted r w
reads (shared_leave r w) = r
reads (exclusive_check r w) = counted r w
reads (exclusive_try r w) = r
reads (exclusive_undo r w) = r
reads (exclusive_wait r w) = r
reads _ = 0

abbrev pub read_marks : Place → ℕ
read_marks (shared_undo r w) = r + 1
read_marks p = reads p

abbrev within : ℕ → ℕ
within zero = 0
within (suc w) = 1

-- How many calls of `lock_shared` and `lock` a thread has to undo, inside a call as well.
abbrev pub outstanding : Place → ℕ
outstanding (between r w) = r + w
outstanding (shared_check r w) = r + w
outstanding (shared_try r w) = r + w
outstanding (shared_undo r w) = r + w
outstanding (shared_wait r w) = r + w
outstanding (shared_look r w) = r + w
outstanding (shared_leave r w) = r + w
outstanding (exclusive_check r w) = r + w
outstanding (exclusive_deeper r w) = r + w
outstanding (exclusive_try r w) = r + w
outstanding (exclusive_own r w) = r + w
outstanding (exclusive_first r w) = r + w
outstanding (exclusive_undo r w) = r + w
outstanding (exclusive_wait r w) = r + w
outstanding (exclusive_down r w) = r + w
outstanding (exclusive_disown r w) = r + w
outstanding (exclusive_leave r w) = r + w

-- Whether a thread holds the exclusive lock.
abbrev pub holds : Place → ℕ
holds (between r w) = within w
holds (shared_check r w) = within w
holds (shared_look r w) = within w
holds (exclusive_check r w) = within w
holds (exclusive_deeper r w) = 1
holds (exclusive_own r w) = 1
holds (exclusive_first r w) = 1
holds (exclusive_down r w) = 1
holds (exclusive_disown r w) = 1
holds (exclusive_leave r w) = 1
holds _ = 0

abbrev pub write_marks : Place → ℕ
write_marks (exclusive_undo r w) = 1
write_marks p = holds p

-- The depth and the id in the word while a thread holds the lock.
abbrev pub depth_of : Place → ℕ
depth_of (between r w) = w
depth_of (shared_check r w) = w
depth_of (shared_look r w) = w
depth_of (exclusive_check r w) = w
depth_of (exclusive_deeper r w) = w
depth_of (exclusive_down r w) = w
depth_of _ = 0

abbrev pub id_in : ℕ → Place → ℕ
id_in me (exclusive_own r w) = 0
id_in me (exclusive_leave r w) = 0
id_in me p = me

abbrev pub IsPlace : Place → Type 0
IsPlace (between r w) = (r ≤ 255) × (w ≤ 255)
IsPlace (shared_check r w) = (r < 255) × (w ≤ 255)
IsPlace (shared_try r w) = (r < 255) × (w ≡ 0)
IsPlace (shared_undo r w) = (r < 255) × (w ≡ 0)
IsPlace (shared_wait r w) = (r < 255) × (w ≡ 0)
IsPlace (shared_look r w) = (r ≤ 255) × (0 < r) × (w ≤ 255)
IsPlace (shared_leave r w) = (r ≤ 255) × (0 < r) × (w ≡ 0)
IsPlace (exclusive_check r w) = (r ≤ 255) × (w < 255)
IsPlace (exclusive_deeper r w) = (r ≤ 255) × (0 < w) × (w < 255)
IsPlace (exclusive_try r w) = (r ≤ 255) × (w ≡ 0)
IsPlace (exclusive_own r w) = (r ≡ 0) × (w ≡ 0)
IsPlace (exclusive_first r w) = (r ≡ 0) × (w ≡ 0)
IsPlace (exclusive_undo r w) = (r ≤ 255) × (w ≡ 0)
IsPlace (exclusive_wait r w) = (r ≤ 255) × (w ≡ 0)
IsPlace (exclusive_down r w) = (r ≤ 255) × (0 < w) × (w ≤ 255) × ((w ≡ 1) → (r ≡ 0))
IsPlace (exclusive_disown r w) = (r ≡ 0) × (w ≡ 1)
IsPlace (exclusive_leave r w) = (r ≡ 0) × (w ≡ 1)

-- A thread with the id `me` at a place, among others whose marks, counted calls and holding sum to
-- `marks`, `writes`, `readers` and `holders`.
pub record Among (me marks writes readers holders : ℕ) (m : Lock) (p : Place) : Type 0 where
  pub exact :
      m.word ≡ read_marks p + marks + (write_marks p + writes) * 2 ^ 20 + owner_id m.word * 2 ^ 32
  pub bounded : m.word < 2 ^ 64
  pub stands : IsPlace p
  pub alone : (holds p + holders ≡ 0) ⊎ ((holds p + holders ≡ 1) × (reads p + readers ≡ 0))
  pub mine : holds p ≡ 1 → (m.depth ≡ depth_of p) × (owner_id m.word ≡ id_in me p)
  pub nobody : holds p + holders ≡ 0 → (m.depth ≡ 0) × (owner_id m.word ≡ 0)

-- The others leave room, and if one of them holds the lock the id is not this thread's.
pub record Others (me marks writes readers holders : ℕ) (m : Lock) : Type 0 where
  pub room : (marks + 256 < 2 ^ 20) × (writes + 1 < 2 ^ 12)
  pub parts : (readers ≤ marks) × (holders ≤ writes)
  pub an_id : (0 < me) × (me < 2 ^ 32)
  pub not_mine : holders ≡ 1 → owner_id m.word ≢ me
