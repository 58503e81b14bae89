-- ===== src/Sync/ContentionFree/Safety.antt =====
-- What `contention_free_rw_lock` promises to clients of which one thread writes.
use hope_threading.Prelude.{subst, true, ℕ, ◌^◌, ◌<◌, ◌≡◌, ◌≢◌, arith}
use hope_threading.Threads.{total, le-total, System, Reach}
use hope_threading.Sync.ContentionFree.{Lock, Place, reading, writing}
use hope_threading.Sync.ContentionFree.Invariant.{
  Reader, reads, one_writer_move, initial, Reach-Inv,
}

-- The writer excludes the readers: with some slot and fewer than 2 ^ 31 threads, of which only
-- thread `w` calls `lock_exclusive`, no other thread reads in any slot while `w` writes, and the flag
-- is set.
pub writer_excludes_readers :
    {slots w n : ℕ} {s : System Lock Place}
    → 0 < slots
    → n < 2 ^ 31
    → Reach (one_writer_move slots w) n initial s
    → s.pc w ≡ writing
    → (j k : ℕ) → j < n
    → j ≢ w
    → (s.mem.write_lock ≡ true) × (s.pc j ≢ reading k)
writer_excludes_readers {slots} {w} {n} {s} some_slot few r here j k hj ne =
    (now.0, λ e. ground (arith, le-total (reads k) n s.pc j hj, now.1 k, in_range e, e))
  where
    now : (s.mem.write_lock ≡ true) × ((c : ℕ) → c < slots → total (reads c) n s.pc ≡ 0)
    now = rw here at (Reach-Inv some_slot few r).writer

    in_range : s.pc j ≡ reading k → k < slots
    in_range e = subst (Reader slots) e ((Reach-Inv some_slot few r).readers j hj ne)
