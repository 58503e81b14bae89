-- ===== src/Sync/RecursiveSpinlock/Linux.antt =====
-- `recursive_spinlock` over the ids that `get_thread_id` gives on Linux.
use hope_threading.Prelude.{ℕ, ◌+◌, ◌<◌, zero, suc, ◌≡◌, ◌≢◌, refl, arith}
use hope_threading.Core.ThreadId.{linux_thread_id}
use hope_threading.Threads.{System, Reach, Reach-keeps, turn}
use hope_threading.Sync.RecursiveSpinlock.{Lock, Place, between, check, exchange, wait, Call, move}
use hope_threading.Sync.RecursiveSpinlock.Invariant.{initial}

-- The places that a thread never gets to while the owner is `Free`, the id of them all.
abbrev Never : Place → Type 0
Never (exchange d) = ⊥
Never (Place.wait d) = ⊥
Never (Place.set_one d) = ⊥
Never (Place.try_exchange d) = ⊥
Never (Place.try_count d) = ⊥
Never p = Unit

abbrev Open : Lock → Place → Type 0
Open m p = (m.owner ≡ 0) × Never p

move-Open :
    (c : Call) (i : ℕ) (m : Lock) (p : Place)
    → Open m p
    → Open (move linux_thread_id c i m p).0 (move linux_thread_id c i m p).1
unfolding move
move-Open c i m (between zero) o = ground arith
move-Open c i m (between (suc d)) o = ground arith
move-Open c i m p o = ground arith

Reach-Open :
    {n : ℕ} {s : System Lock Place}
    → Reach (move linux_thread_id) n initial s
    → (s.mem.owner ≡ 0) × ((i : ℕ) → i < n → Never (s.pc i))
Reach-Open {n} r =
    Reach-keeps (move linux_thread_id) n (λ m pc. (m.owner ≡ 0) × ((i : ℕ) → i < n → Never (pc i)))
      (λ i c m pc lt v.
        let o = move-Open c i m (pc i) (v.0, v.1 i lt) in
        (o.0, λ j hj. ground (arith, o, v.1 j hj)))
      (refl, λ i hi. tt) r

-- On Linux the lock excludes nobody: in each reachable state the owner is `Free`, no thread waits for
-- the lock, and a thread that has called `lock` has taken it after its next two moves, whatever the
-- other threads hold.
pub lock_never_waits :
    {n : ℕ} {s : System Lock Place}
    → Reach (move linux_thread_id) n initial s
    → (i d : ℕ) (c : Call) → i < n
    → s.pc i ≡ check d
    → (s.mem.owner ≡ 0)
      × ((j e : ℕ) → j < n → s.pc j ≢ wait e)
      × ((turn (move linux_thread_id) i c (turn (move linux_thread_id) i c s)).pc i
          ≡ between (d + 1))
unfolding move
lock_never_waits {n} {s} r i d c hi at =
    (o.0, λ j e hj w. ground (arith, o.1 j hj), ground (arith, o))
  where
    o : (s.mem.owner ≡ 0) × ((i : ℕ) → i < n → Never (s.pc i))
    o = Reach-Open r
