-- ===== src/Sync/RecursiveRwSpinlock/Moves.antt =====
-- One move of a thread among others, place by place.
use hope_threading.Prelude.{ℕ, zero, suc, ◌≡◌, arith}
use hope_threading.Sync.RecursiveRwSpinlock.{
  Lock, Place, Call, lock_shared, lock, unlock, unlock_shared, move, owner_id, between,
  shared_check, shared_look, exclusive_check,
}
use hope_threading.Sync.RecursiveRwSpinlock.Nested.{nested_move, Among, Others}

module _ (id : ℕ → ℕ) (i marks writes readers holders : ℕ) where
  -- What a move leaves to a thread and to the others.
  abbrev pub Keeps : Lock → Lock → Place → Type 0
  Keeps m m' p' =
      Among (id i) marks writes readers holders m' p'
      × (holders ≡ 1 → (m'.depth ≡ m.depth) × (owner_id m'.word ≡ owner_id m.word))

  pub move-Keeps :
      (c : Call) (m : Lock) (p : Place)
      → Among (id i) marks writes readers holders m p
      → Others (id i) marks writes readers holders m
      → Keeps m (nested_move id c i m p).0 (nested_move id c i m p).1
  unfolding move
  move-Keeps lock_shared m (between r zero) a o = ground (arith, a, o)
  move-Keeps lock_shared m (between r (suc w)) a o = ground (arith, a, o)
  move-Keeps unlock_shared m (between zero zero) a o = ground (arith, a, o)
  move-Keeps unlock_shared m (between zero (suc w)) a o = ground (arith, a, o)
  move-Keeps unlock_shared m (between (suc r) zero) a o = ground (arith, a, o)
  move-Keeps unlock_shared m (between (suc r) (suc w)) a o = ground (arith, a, o)
  move-Keeps lock m (between r zero) a o = ground (arith, a, o)
  move-Keeps lock m (between r (suc w)) a o = ground (arith, a, o)
  move-Keeps unlock m (between r zero) a o = ground (arith, a, o)
  move-Keeps unlock m (between r (suc w)) a o = ground (arith, a, o)
  move-Keeps c m (shared_check r zero) a o = ground (arith, a, o)
  move-Keeps c m (shared_check r (suc w)) a o = ground (arith, a, o)
  move-Keeps c m (shared_look r zero) a o = ground (arith, a, o)
  move-Keeps c m (shared_look r (suc w)) a o = ground (arith, a, o)
  move-Keeps c m (exclusive_check r zero) a o = ground (arith, a, o)
  move-Keeps c m (exclusive_check r (suc w)) a o = ground (arith, a, o)
  move-Keeps c m p a o = ground (arith, a, o)
