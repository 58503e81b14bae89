-- ===== src/Sync/Backoff.antt =====
-- `exponential_backoff` of lib/hope_thread/synchronization/backoff.h.
use hope_threading.Prelude.{ℕ, zero, suc, ◌*◌, ◌%◌, ◌^◌, ◌≡◌, refl, leb, if◌then◌else◌, arith}

-- `MaxSpinsCount`
abbrev pub max_spins_count : ℕ
max_spins_count = 32

-- What one call does: so many pauses, or a yield.
pub data Action : Type 0 where
  pause : ℕ → Action
  yield : Action

-- `operator()`, over `m_spins`, with the new `m_spins` first.
pub back_off : ℕ → ℕ × Action
back_off spins =
    if leb spins max_spins_count then (spins * 2 % 2 ^ 64, pause spins) else (spins, yield)

-- `m_spins` after so many calls on a new object
pub spins_after : ℕ → ℕ
spins_after zero = 0
spins_after (suc n) = (back_off (spins_after n)).0

-- The back-off never backs off: `m_spins` starts at 0 and is doubled, so after any number of calls
-- the next one makes no pause, and no call ever yields.
pub back_off_never : (n : ℕ) → back_off (spins_after n) ≡ (0, pause 0)
unfolding back_off spins_after
back_off_never zero = refl
back_off_never (suc n) = ground (arith, back_off_never n)
