-- ===== src/Queue/SpmcBytes/Bytes.antt =====
-- Runs of bytes in a memory.
use hope_threading.Prelude.{
  ℕ, zero, suc, ◌+◌, ◌≤◌, ◌<◌, ◌≡◌, refl, ap₂, ◌∙◌, ◌⊎◌, List, [], ◌∷◌, arith, length,
}
use hope_threading.Threads.{update}

pub write_bytes : (ℕ → ℕ) → ℕ → List ℕ → ℕ → ℕ
write_bytes m p [] = m
write_bytes m p (b ∷ bs) = update (write_bytes m (p + 1) bs) p b

pub read_bytes : (ℕ → ℕ) → ℕ → ℕ → List ℕ
read_bytes m p zero = []
read_bytes m p (suc n) = m p ∷ read_bytes m (p + 1) n

write_bytes-outside :
    (bs : List ℕ) (m : ℕ → ℕ) (p a : ℕ) → (a < p) ⊎ (p + length bs ≤ a) → write_bytes m p bs a ≡ m a
unfolding write_bytes
write_bytes-outside [] m p a out = refl
write_bytes-outside (b ∷ bs) m p a out = ground (arith, write_bytes-outside bs m (p + 1) a)

-- What stands beside a run is left alone by it.
pub read_bytes-write_apart :
    (n : ℕ) (bs : List ℕ) (m : ℕ → ℕ) (p a : ℕ)
    → (a + n ≤ p) ⊎ (p + length bs ≤ a)
    → read_bytes (write_bytes m p bs) a n ≡ read_bytes m a n
unfolding read_bytes
read_bytes-write_apart zero bs m p a out = refl
read_bytes-write_apart (suc n) bs m p a out =
    ap₂ ◌∷◌ (write_bytes-outside bs m p a (omega arith))
      (read_bytes-write_apart n bs m p (a + 1) (omega arith))

read_bytes-below :
    (n : ℕ) (m : ℕ → ℕ) (p b a : ℕ) → p < a → read_bytes (update m p b) a n ≡ read_bytes m a n
unfolding read_bytes
read_bytes-below zero m p b a lt = refl
read_bytes-below (suc n) m p b a lt =
    ap₂ ◌∷◌ (ground arith) (read_bytes-below n m p b (a + 1) (omega arith))

-- A run that was written is read back.
pub read_bytes-write :
    (bs : List ℕ) (m : ℕ → ℕ) (p : ℕ) → read_bytes (write_bytes m p bs) p (length bs) ≡ bs
unfolding read_bytes write_bytes
read_bytes-write [] m p = refl
read_bytes-write (b ∷ bs) m p = ap₂ ◌∷◌ (ground arith) (
    read_bytes-below (length bs) (write_bytes m (p + 1) bs) p b (p + 1) (omega arith)
    ∙ read_bytes-write bs m (p + 1))
