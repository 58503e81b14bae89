-- ===== src/Queue/Slots.antt =====
-- Which positions of a ring of `size` cells share a cell. The queues write `pos & mask` with a mask of
-- `size - 1`, which is `pos % size` as the size is a power of two.
use hope_threading.Prelude.{ℕ, ◌+◌, ◌-◌, ◌%◌, ◌<◌, ◌≡◌, sym, ap, ◌≢◌, arith, dec_lt}
use native.Mathlib.Nat.{mod-add-mod, mod-eq_of_lt, mod-eq-sub-mod, mod-lt, add-mod_right}

-- Two positions less than one round apart have different cells.
pub slot-ne : (size a b : ℕ) → a < b → b < a + size → a % size ≢ b % size
slot-ne size a b lt near e = elim (dec_lt (a % size + (b - a)) size) [
  | yes below ↦ absurd (omega (arith, shift, mod-eq_of_lt below))
  | no above ↦ absurd (
      omega (
        arith,
        shift,
        mod-lt a {m = size} (omega arith),
        mod-eq-sub-mod {n = a % size + (b - a)} {m = size} (omega arith),
        mod-eq_of_lt {n = a % size + (b - a) - size} {m = size}
            (omega (arith, mod-lt a {m = size} (omega arith))),
      ))
]
  where
    shift : b % size ≡ (a % size + (b - a)) % size
    shift = rw (mod-add-mod a size (b - a)) (ap (λ k. k % size) (omega arith))

-- The same for either order.
pub slots_apart : (size a b : ℕ) → a ≢ b → a < b + size → b < a + size → a % size ≢ b % size
slots_apart size a b ne below above = elim (dec_lt a b) [
  | yes lt ↦ slot-ne size a b lt above
  | no ge ↦ λ e. slot-ne size b a (omega arith) below (sym e)
]

-- A whole round leads to the same cell.
pub slot_round : (size a : ℕ) → (a + size) % size ≡ a % size
slot_round size a = add-mod_right a size
