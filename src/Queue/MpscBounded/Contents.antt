-- ===== src/Queue/MpscBounded/Contents.antt =====
-- What a `mpsc_bounded_queue` holds, and when it is sound.
use hope_threading.Prelude.{
  ℕ, zero, suc, ◌+◌, ◌-◌, ◌%◌, ◌^◌, ◌≤◌, ◌<◌, ◌≡◌, true, false, List, [], ◌∷◌,
}
use hope_threading.Queue.MpscBounded.{Queue}

module _ {A : Type 0} (value : ℕ → A) (size : ℕ) where
  -- The values from position `from` on.
  abbrev pub items : ℕ → ℕ → List A
  items from zero = []
  items from (suc n) = value (from % size) ∷ items (from + 1) n

module _ {A : Type 0} where
  abbrev pub contents : Queue A → List A
  contents q = items q.value q.size q.tail (q.head - q.tail)

  -- At most `size` items, a set flag for each of them and for no free position, and positions that do
  -- not come near the end of their word.
  pub record IsSound (q : Queue A) : Type 0 where
    pub some_cell : 0 < q.size
    pub order : q.tail ≤ q.head
    pub room : q.head ≤ q.tail + q.size
    pub small : q.head + 1 < 2 ^ 63
    pub full : (p : ℕ) → q.tail ≤ p → p < q.head → q.ready (p % q.size) ≡ true
    pub free : (p : ℕ) → q.head ≤ p → p < q.tail + q.size → q.ready (p % q.size) ≡ false
