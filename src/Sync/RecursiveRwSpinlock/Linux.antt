-- ===== src/Sync/RecursiveRwSpinlock/Linux.antt =====
-- `recursive_rw_spinlock` with the id that `get_thread_id` gives every thread on Linux.
use hope_threading.Prelude.{ℕ, zero, suc, ◌-◌, ◌^◌, ◌≡◌, ◌∙◌, ◌≢◌, ◌⊎◌, inl, arith}
use hope_threading.Threads.{System, solo, turn}
use hope_threading.Core.ThreadId.{linux_thread_id}
use hope_threading.Sync.RecursiveRwSpinlock.{
  Lock, Place, Call, between, exclusive_check, exclusive_try, exclusive_wait, exclusive_undo,
  lock_shared, unlock_shared, move,
}

-- The largest word, which is 0 less one.
abbrev pub worn_word : ℕ
worn_word = 2 ^ 64 - 1

-- A thread in the loop of `lock`, with the word that it finds there.
abbrev Trying : ℕ → ℕ → ℕ → Place → Type 0
Trying r w m p =
    ((m ≡ worn_word)
      × ((p ≡ exclusive_check r w) ⊎ (p ≡ exclusive_try r w) ⊎ (p ≡ exclusive_wait r w)))
    ⊎ ((m ≡ 0xfffff) × (p ≡ exclusive_undo r w))

move-Trying :
    (c : Call) (i r w : ℕ) (m : Lock) (p : Place)
    → Trying r w m.word p
    → Trying r w (move linux_thread_id c i m p).0.word (move linux_thread_id c i m p).1
unfolding move
move-Trying c i r w m p h = ground (arith, h)

solo-Trying :
    (c : Call) (j k r w : ℕ) (s : System Lock Place)
    → Trying r w s.mem.word (s.pc j)
    → Trying r w
        (solo (move linux_thread_id) j c k s).mem.word
        ((solo (move linux_thread_id) j c k s).pc j)
unfolding solo
solo-Trying c j zero r w s h = h
solo-Trying c j (suc k) r w s h =
    solo-Trying c j k r w (turn (move linux_thread_id) j c s)
      (ground (arith, move-Trying c j r w s.mem (s.pc j) h))

-- `lock_shared` and `unlock_shared` of thread `i` from a free lock
abbrev pub one_read : ℕ → System Lock Place → System Lock Place
one_read i s =
    solo (move linux_thread_id) i unlock_shared 3 (solo (move linux_thread_id) i lock_shared 2 s)

one_read-word :
    (i w : ℕ) (s : System Lock Place)
    → s.mem.word ≡ 0
    → s.mem.depth ≡ 0
    → s.pc i ≡ between 0 w
    → (one_read i s).mem.word ≡ worn_word
unfolding move solo
one_read-word i w s free none_in at = ground (arith, free, none_in, at)

one_read-other : (i j : ℕ) (s : System Lock Place) → i ≢ j → (one_read i s).pc j ≡ s.pc j
unfolding solo
one_read-other i j s ne = ground (arith, ne)

-- On Linux one reader breaks the lock for good: after a thread has called `lock_shared` and
-- `unlock_shared` on a free lock, the word is 2 ^ 64 - 1, and another thread that is at the beginning
-- of `lock` has not returned from it after any number of moves of its own.
pub reader_blocks_writers :
    (i j w r v k : ℕ) (c : Call) (s : System Lock Place)
    → s.mem.word ≡ 0
    → s.mem.depth ≡ 0
    → s.pc i ≡ between 0 w
    → s.pc j ≡ exclusive_check r v
    → i ≢ j
    → ((one_read i s).mem.word ≡ worn_word)
      × ((a b : ℕ) → (solo (move linux_thread_id) j c k (one_read i s)).pc j ≢ between a b)
reader_blocks_writers i j w r v k c s free none_in at trying ne = (
  one_read-word i w s free none_in at,
  λ a b e. ground (
    arith,
    e,
    solo-Trying c j k r v (one_read i s)
        (inl (one_read-word i w s free none_in at, inl (one_read-other i j s ne ∙ trying))),
  ),
)
