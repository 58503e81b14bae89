-- ===== src/Sync/RecursiveSpinlock/Safety.antt =====
-- What `recursive_spinlock` promises where each thread has an id of its own that is not `Free`.
use hope_threading.Prelude.{ℕ, ◌%◌, ◌^◌, ◌<◌, ◌≡◌, ◌⊎◌, suc, arith}
use hope_threading.Threads.{System, Reach, moves}
use hope_threading.Sync.RecursiveSpinlock.{Lock, Place, between, set_one, try_count, free, move}
use hope_threading.Sync.RecursiveSpinlock.Invariant.{IsIdentity, initial, Reach-Inv}

-- The lock excludes where no thread's id is the word `Free` and the ids differ, unlike on Linux: two
-- threads that are both between two calls with the lock taken at least once are then one thread, in
-- each state that fewer than 2 ^ 64 moves reach; and the lock has the id of its owner and counts exactly
-- the calls of its owner that have taken it.
pub owner_alone :
    {id : ℕ → ℕ} {n : ℕ} {s : System Lock Place}
    → IsIdentity id n
    → (r : Reach (move id) n initial s) → moves (move id) r < 2 ^ 64
    → (i j a b : ℕ) → i < n
    → j < n
    → s.pc i ≡ between (suc a)
    → s.pc j ≡ between (suc b)
    → (i ≡ j) × (s.mem.owner ≡ id i % 2 ^ 32) × (s.mem.recursion ≡ suc a)
owner_alone ident r few i j a b hi hj e f =
    let v = Reach-Inv ident r few in
    ground (arith, v.places i hi, v.places j hj, ident.distinct i j hi hj)

-- The two asserts hold: `m_recursion` is zero when `lock` or `try_lock` has won the exchange, and the
-- owner is the calling thread when `unlock` frees the lock.
pub asserts_hold :
    {id : ℕ → ℕ} {n : ℕ} {s : System Lock Place}
    → IsIdentity id n
    → (r : Reach (move id) n initial s) → moves (move id) r < 2 ^ 64
    → (i d : ℕ) → i < n
    → (s.pc i ≡ set_one d) ⊎ (s.pc i ≡ try_count d) ⊎ (s.pc i ≡ free d)
    → (s.mem.owner ≡ id i % 2 ^ 32) × (s.mem.recursion ≡ 0)
asserts_hold ident r few i d hi at = let v = Reach-Inv ident r few in ground (arith, v.places i hi)
