-- ===== src/Queue/SpmcBytes/Aligned.antt =====
-- Where the length of a message is written.
use hope_threading.Prelude.{
  ℕ, ◌+◌, ◌*◌, ◌/◌, ◌%◌, ◌≤◌, ◌<◌, ◌≡◌, ap, none, some, List, arith, length,
}
use native.Mathlib.Nat.{mod-lt, div-add-mod'}
use hope_threading.Queue.SpmcBytes.RoundTrip.{written}
use hope_threading.Queue.SpmcBytes.{Layout, Queue, header_size, serialize}

-- A multiple of four is one also within a round of the buffer.
rounds_aligned : (n pos : ℕ) → n % 4 ≡ 0 → pos % 4 ≡ 0 → (pos / n * n % 4 ≡ 0) × (pos % n % 4 ≡ 0)
rounds_aligned n pos c a =
    let fours : n ≡ 4 * (n / 4) = omega arith in
    omega (arith, div-add-mod' pos n, ap (λ (k : ℕ). pos / n * k) fours)

-- The length stays in the buffer if all lengths are multiples of four: from a position, a length and
-- a buffer size that are such multiples, a message that fits into the buffer behind its length is
-- written without an access outside it, and the position behind it is a multiple of four again.
pub aligned_serialize :
    (l : Layout) (buffer_size : ℕ) (q : Queue) (message : List ℕ)
    → q.writer_pos % 4 ≡ 0
    → length message % 4 ≡ 0
    → buffer_size % 4 ≡ 0
    → length message + header_size ≤ buffer_size
    → (q' : Queue) × (serialize l buffer_size q message (length message) ≡ some q')
      × (q'.writer_pos % 4 ≡ 0)
unfolding serialize
aligned_serialize l buffer_size q message a b c fits = (
  written l buffer_size q message,
  ground (arith, rounds_aligned buffer_size q.writer_pos c a, below),
  ground (arith, rounds_aligned buffer_size q.writer_pos c a, below),
)
  where
    below : q.writer_pos % buffer_size < buffer_size
    below = mod-lt q.writer_pos {m = buffer_size} (omega arith)

-- Otherwise it may not: from each position that is less than four bytes before the end of the buffer,
-- the length of each message is written past the end of the buffer.
pub unaligned_overflows :
    (l : Layout) (buffer_size : ℕ) (q : Queue) (message : List ℕ) (size : ℕ)
    → buffer_size < q.writer_pos % buffer_size + header_size
    → serialize l buffer_size q message size ≡ none
unfolding serialize
unaligned_overflows l buffer_size q message size near = ground arith
