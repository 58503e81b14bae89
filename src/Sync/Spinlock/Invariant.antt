-- ===== src/Sync/Spinlock/Invariant.antt =====
-- The flag of `spinlock` is set exactly while one thread holds the lock.
use hope_threading.Prelude.{ℕ, ◌+◌, ◌≡◌, refl, ◌⊎◌, inl, Bool, true, false, arith}
use hope_threading.Threads.{total, total-update, total-const, System, Reach, Reach-keeps}
use hope_threading.Sync.Spinlock.{Place, idle, exchange, holding, Call, move}

abbrev pub holds : Place → ℕ
holds holding = 1
holds _ = 0

abbrev pub Agrees : Bool → ℕ → Type 0
Agrees m holders = ((m ≡ false) × (holders ≡ 0)) ⊎ ((m ≡ true) × (holders ≡ 1))

move-Agrees :
    (c : Call) (i : ℕ) (m : Bool) (p : Place) {h h' : ℕ}
    → h' + holds p ≡ h + holds (move c i m p).1
    → Agrees m h
    → Agrees (move c i m p).0 h'
unfolding move
move-Agrees c i m exchange e v = ground arith
move-Agrees c i m p e v = ground arith

-- The lock as it is constructed, and no thread in a call.
abbrev pub initial : System Bool Place
initial = record { mem = false; pc = λ _. idle }

pub Reach-Agrees :
    {n : ℕ} {s : System Bool Place} → Reach move n initial s → Agrees s.mem (total holds n s.pc)
Reach-Agrees {n} r =
    Reach-keeps move n (λ m pc. Agrees m (total holds n pc))
      (λ i c m pc lt v. move-Agrees c i m (pc i) (total-update holds n pc i _ lt) v)
      (inl (refl, total-const holds n idle refl)) r
