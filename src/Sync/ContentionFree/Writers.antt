-- ===== src/Sync/ContentionFree/Writers.antt =====
-- What `lock_exclusive` does when another thread holds the lock exclusively.
use hope_threading.Prelude.{ℕ, zero, suc, ◌+◌, ◌<◌, ◌≡◌, ◌≢◌, true, false, arith, subst}
use hope_threading.Threads.{System, turn, solo}
use hope_threading.Sync.ContentionFree.{
  Lock, Place, exclusive_exchange, exclusive_scan, writing, Call, move,
}

module _ (slots i : ℕ) (c : Call) where
  -- The scan ends if every counter is zero.
  solo-scan :
      (left k : ℕ) (s : System Lock Place)
      → k + left ≡ slots
      → ((l : ℕ) → l < slots → s.mem.locked l ≡ 0)
      → s.pc i ≡ exclusive_scan k
      → ((solo (move slots) i c (suc left) s).pc i ≡ writing)
        × ((solo (move slots) i c (suc left) s).mem ≡ s.mem)
        × ((j : ℕ) → j ≢ i → (solo (move slots) i c (suc left) s).pc j ≡ s.pc j)
  unfolding move solo
  solo-scan zero k s e free here =
      (ground (arith, here, e), ground (arith, here), λ j ne. ground (arith, ne))
  solo-scan (suc left) k s e free here =
      let next =
        solo-scan left (k + 1) (turn (move slots) i c s) (omega (arith, e))
          (λ l lt. ground (arith, here, free l lt)) (ground (arith, here, e, free k)) in
      (next.0, ground (arith, next.1, here), λ j ne. ground (arith, next.2 j ne, ne))

  -- A second writer is not kept out: in each state where a thread writes, the flag is set and no reader is
  -- counted, another thread that has called `lock_exclusive` writes as well after three moves of its own
  -- and one for each slot, since the compare-exchange that fails puts `true` in what it expects. Then
  -- both write, the lock is as before, and so are the other threads.
  pub second_writer_passes :
      (j : ℕ) (s : System Lock Place)
      → j ≢ i
      → s.pc j ≡ writing
      → s.mem.write_lock ≡ true
      → ((k : ℕ) → k < slots → s.mem.locked k ≡ 0)
      → s.pc i ≡ exclusive_exchange false
      → let t = solo (move slots) i c (slots + 3) s in
        (t.pc i ≡ writing)
        × (t.pc j ≡ writing)
        × (t.mem ≡ s.mem)
        × ((l : ℕ) → l ≢ i → t.pc l ≡ s.pc l)
  unfolding move solo
  second_writer_passes j s ne writes flag free here =
      subst
        (λ k.
          let t = solo (move slots) i c k s in
          (t.pc i ≡ writing)
          × (t.pc j ≡ writing)
          × (t.mem ≡ s.mem)
          × ((l : ℕ) → l ≢ i → t.pc l ≡ s.pc l))
        {x = suc (suc (suc slots))} {y = slots + 3} (omega arith)
        (
          scanned.0,
          ground (arith, scanned.2 j ne, ne, writes),
          ground (arith, scanned.1, here, flag),
          λ l other. ground (arith, scanned.2 l other, other),
        )
    where
      failed : System Lock Place
      failed = turn (move slots) i c s

      passed : System Lock Place
      passed = turn (move slots) i c failed

      scanned :
          ((solo (move slots) i c (suc slots) passed).pc i ≡ writing)
          × ((solo (move slots) i c (suc slots) passed).mem ≡ passed.mem)
          × ((l : ℕ) → l ≢ i → (solo (move slots) i c (suc slots) passed).pc l ≡ passed.pc l)
      scanned =
          solo-scan slots 0 passed (omega arith) (λ l lt. ground (arith, here, flag, free l lt))
            (ground (arith, here, flag))
