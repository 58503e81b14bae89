-- ===== src/Sync/Spinlock/Safety.antt =====
-- What `spinlock` promises in each reachable state.
use hope_threading.Prelude.{ℕ, ◌<◌, ◌≡◌, ◌≢◌, ◌⊎◌, ℕ_discrete, arith}
use hope_threading.Threads.{total, le-total_two, System, Reach, turn}
use hope_threading.Sync.Spinlock.{Place, exchange, try_exchange, holding, Call, move}
use hope_threading.Sync.Spinlock.Invariant.{holds, initial, Reach-Agrees}
use hope_threading.Prelude.{Bool}

-- No two threads hold the lock in a reachable state, whichever of `lock` and `try_lock` they took it
-- by.
pub mutual_exclusion :
    {n : ℕ} {s : System Bool Place}
    → Reach move n initial s
    → (i j : ℕ) → i < n
    → j < n
    → s.pc i ≡ holding
    → s.pc j ≡ holding
    → i ≡ j
mutual_exclusion {n} {s} r i j hi hj e f = elim (ℕ_discrete i j) [
  | yes same ↦ same
  | no ne ↦ absurd (ground (arith, le-total_two holds n s.pc i j hi hj ne, Reach-Agrees r))
]

-- An exchange in a reachable state takes the lock exactly when no thread holds it: a free lock is
-- never refused, by neither call, and a held one always.
pub exchange_iff_free :
    {n : ℕ} {s : System Bool Place}
    → Reach move n initial s
    → (i : ℕ) (c : Call) → (s.pc i ≡ exchange) ⊎ (s.pc i ≡ try_exchange)
    → ((total holds n s.pc ≡ 0) × ((turn move i c s).pc i ≡ holding))
      ⊎ ((total holds n s.pc ≡ 1) × ((turn move i c s).pc i ≢ holding))
unfolding move
exchange_iff_free r i c at = ground (arith, Reach-Agrees r)
