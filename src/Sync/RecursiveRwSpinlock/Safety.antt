-- ===== src/Sync/RecursiveRwSpinlock/Safety.antt =====
-- What `recursive_rw_spinlock` promises, for ids that are not 0 and differ.
use hope_threading.Prelude.{zero, suc, ℕ, ◌+◌, ◌^◌, ◌<◌, ◌≡◌, ◌≢◌, arith}
use hope_threading.Threads.{le-total, le-total_two, System, Reach}
use hope_threading.Sync.RecursiveRwSpinlock.{
  Lock, Place, between, owner_id, shared_check, shared_look, exclusive_check,
}
use hope_threading.Sync.RecursiveRwSpinlock.Nested.{nested_move, holds, reads, outstanding, IsPlace}
use hope_threading.Sync.RecursiveRwSpinlock.Reached.{Ids, initial, Reach-Inv}

none_outstanding : (p : Place) → IsPlace p → reads p ≡ 0 → holds p ≡ 0 → outstanding p ≡ 0
none_outstanding (between r zero) at no_reads free = ground (arith, no_reads)
none_outstanding (between r (suc w)) at no_reads free = absurd (ground (arith, free))
none_outstanding (shared_check r zero) at no_reads free = ground (arith, no_reads)
none_outstanding (shared_check r (suc w)) at no_reads free = absurd (ground (arith, free))
none_outstanding (shared_look r zero) at no_reads free = ground (arith, no_reads)
none_outstanding (shared_look r (suc w)) at no_reads free = absurd (ground (arith, free))
none_outstanding (exclusive_check r zero) at no_reads free = ground (arith, no_reads)
none_outstanding (exclusive_check r (suc w)) at no_reads free = absurd (ground (arith, free))
none_outstanding p at no_reads free = ground (arith, at, no_reads, free)

-- The exclusive lock excludes: in each reachable state, for a thread between two calls that has called
-- `lock` without undoing it, no other thread has a call of `lock` or `lock_shared` to undo that has
-- returned, be that thread between two calls or inside one; and the word then has the owner's id and
-- `m_write_recursion_depth` the number of its calls. The threads are fewer than 2 ^ 12 - 1, their ids
-- are words of 32 bits that are not 0 and differ, and each nests its calls, at most 255 of a kind.
pub owner_excludes :
    {n : ℕ} {id : ℕ → ℕ} {s : System Lock Place}
    → n + 1 < 2 ^ 12
    → Ids n id
    → Reach (nested_move id) n initial s
    → (i r w : ℕ) → i < n
    → s.pc i ≡ between r (w + 1)
    → (owner_id s.mem.word ≡ id i)
      × (s.mem.depth ≡ w + 1)
      × ((j : ℕ) → j < n → i ≢ j → outstanding (s.pc j) ≡ 0)
owner_excludes {n} {id} {s} few ids reached i r w lt at =
    let inv = Reach-Inv few ids reached in
    (
      ground (arith, (inv.places i lt).1, at),
      ground (arith, (inv.places i lt).1, at),
      λ j below ne.
          none_outstanding (s.pc j) (inv.places j below).0
            (ground
              (arith, at, le-total reads n s.pc j below, le-total holds n s.pc i lt, inv.alone))
            (ground (arith, at, le-total_two holds n s.pc i j lt below ne, inv.alone)),
    )
