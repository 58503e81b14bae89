-- ===== src/Sync/SharedObject/Tests.antt =====
-- A number under `object_safe_wrapper` with `rw_spinlock`, which one thread changes and another looks at.
use hope_threading.Prelude.{ℕ, ◌+◌, ◌≡◌, refl, List, [], ◌∷◌, arith}
use hope_threading.Threads.{Run, run}
use hope_threading.Sync.RwSpinlock as RwSpinlock
use hope_threading.Sync.SharedObject.{
  Call, change, look, move, enter, shared_unlock, arrived_exclusive, arrived_shared,
}
use hope_threading.Sync.SharedObject.Safety.{initial, looks_agree}
use hope_threading.Sync.ObjectSafe.Safety.{apply_all}

-- Four moves of a thread.
abbrev four : ℕ → Call ℕ → List (ℕ × Call ℕ)
four i c = (i, c) ∷ (i, c) ∷ (i, c) ∷ (i, c) ∷ []

abbrev add : ℕ → ℕ
add k = k + 2

-- Thread 0 has added 2 to 5 while thread 1 tried for the lock, and thread 1 has looked twice.
abbrev looked : Run (move {A = ℕ}) 2 (initial 5)
looked = run (move {A = ℕ}) 2 (initial 5) (
    (0, change add)
    ∷ (0, look)
    ∷ (1, look)
    ∷ (1, look)
    ∷ (1, look)
    ∷ (0, look)
    ∷ (0, look)
    ∷ (0, look)
    ∷ four 1 look)

looked_state : (looked.last.pc 1 ≡ shared_unlock 7 7) × ◌≡◌ {A = ℕ} looked.last.mem.object 7
unfolding run move enter arrived_exclusive arrived_shared RwSpinlock.move
looked_state = (refl, refl)

looks_agree_example :
    ◌≡◌ {A = ℕ} 7 7
    × ◌≡◌ {A = ℕ} 7 looked.last.mem.object
    × ◌≡◌ {A = ℕ} looked.last.mem.object (apply_all looked.last.mem.applied 5)
looks_agree_example = looks_agree 5 (omega arith) looked.reach 1 7 7 (omega arith) looked_state.0
