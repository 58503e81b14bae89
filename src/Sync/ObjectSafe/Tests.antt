-- ===== src/Sync/ObjectSafe/Tests.antt =====
-- A number under `object_safe_wrapper`, which two threads change.
use hope_threading.Prelude.{ℕ, ◌+◌, ◌*◌, ◌≡◌, refl, [], ◌∷◌}
use hope_threading.Threads.{Run, run}
use hope_threading.Sync.Spinlock as Spinlock
use hope_threading.Sync.ObjectSafe.{move, write_object}
use hope_threading.Sync.ObjectSafe.Safety.{initial}

abbrev add : ℕ → ℕ
add k = k + 2

abbrev double : ℕ → ℕ
double k = k * 2

-- Thread 0 has added 2 to 5, and thread 1, which has waited, is about to write.
abbrev changed : Run (move {A = ℕ}) 2 (initial 5 2)
changed = run (move {A = ℕ}) 2 (initial 5 2) (
    (0, add)
    ∷ (1, double)
    ∷ (0, add)
    ∷ (1, double)
    ∷ (0, add)
    ∷ (0, add)
    ∷ (0, add)
    ∷ (1, double)
    ∷ (1, double)
    ∷ (1, double)
    ∷ [])

changed_state : (changed.last.mem.object ≡ 7) × (changed.last.pc 1 ≡ write_object double 7)
unfolding run move Spinlock.move
changed_state = (refl, refl)
