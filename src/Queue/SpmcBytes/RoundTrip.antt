-- ===== src/Queue/SpmcBytes/RoundTrip.antt =====
-- A message that is written is read back.
use hope_threading.Prelude.{
  ℕ, ◌+◌, ◌*◌, ◌/◌, ◌%◌, ◌^◌, ◌≤◌, ◌<◌, ◌≡◌, ap, ◌∙◌, subst, ◌≢◌, ◌⊎◌, some, List, arith, length,
}
use native.Mathlib.Nat.{div-add-mod', mod-lt, mod-eq_of_lt}
use hope_threading.Queue.SpmcBytes.{
  Layout, Queue, Consumer, header_size, after, serialize, try_deserialize,
}
use hope_threading.Queue.SpmcBytes.Bytes.{
  write_bytes, read_bytes, read_bytes-write, read_bytes-write_apart,
}

module _ (l : Layout) (n : ℕ) where
  -- The queue behind a call of `serialize` that stays in the buffer.
  abbrev pub written : Queue → List ℕ → Queue
  written q message =
      let to = after n q.writer_pos (length message) in
      record {
        writer_pos = to.0 % 2 ^ 64;
        buffer =
            write_bytes
              (write_bytes q.buffer (q.writer_pos % n) (l.encode (length message % 2 ^ 32))) to.1
              message;
      }

  serialize-some :
      (q q' : Queue) (message : List ℕ)
      → serialize l n q message (length message) ≡ some q'
      → (q.writer_pos % n + header_size ≤ n)
        × ((after n q.writer_pos (length message)).1 + length message ≤ n)
        × (q' ≡ written q message)
  unfolding serialize
  serialize-some q q' message done = ground arith

  -- `try_deserialize` of a message of a known size.
  deserialize_sized :
      (q : Queue) (c : Consumer) (size : ℕ)
      → l.decode (read_bytes q.buffer (c.read_position % n) header_size) ≡ size
      → q.writer_pos ≢ c.read_position
      → c.read_position % n + header_size ≤ n
      → (after n c.read_position size).1 + size ≤ n
      → try_deserialize l n q c
        ≡ some (
          record { read_position = (after n c.read_position size).0 % 2 ^ 64 },
          some (read_bytes q.buffer (after n c.read_position size).1 size),
        )
  unfolding try_deserialize
  deserialize_sized q c size header ne low high = rw header (ground arith)

  module _ (q : Queue) (message : List ℕ) (some_byte : 0 < n) (short : length message < 2 ^ 32)
      (fits : (q.writer_pos % n + length message + header_size ≤ n)
        ⊎ (length message ≤ q.writer_pos % n)) where
    abbrev behind : Queue
    behind = written q message

    header_kept :
        l.decode (read_bytes behind.buffer (q.writer_pos % n) header_size) ≡ length message
    header_kept =
        ap l.decode (
          read_bytes-write_apart 4 message (write_bytes q.buffer (q.writer_pos % n) bytes)
            (after n q.writer_pos (length message)).1 (q.writer_pos % n) (ground arith))
        ∙ ap l.decode (
            subst
              (λ k.
                read_bytes (write_bytes q.buffer (q.writer_pos % n) bytes) (q.writer_pos % n) k
                ≡ bytes)
              (l.length-encode (length message % 2 ^ 32))
              (read_bytes-write bytes q.buffer (q.writer_pos % n)))
        ∙ l.decode-encode (length message % 2 ^ 32) (omega arith)
        ∙ mod-eq_of_lt short
      where
        bytes : List ℕ
        bytes = l.encode (length message % 2 ^ 32)

    body_kept :
        read_bytes behind.buffer (after n q.writer_pos (length message)).1 (length message)
        ≡ message
    body_kept = read_bytes-write message _ _

    moved_on :
        (q.writer_pos / n + 1) * n + n < 2 ^ 64
        → (after n q.writer_pos (length message)).1 + length message ≤ n
        → behind.writer_pos ≢ q.writer_pos
    moved_on far room =
        ground (arith, div-add-mod' q.writer_pos n, mod-lt q.writer_pos {m = n} some_byte)

-- A consumer that is where the writer was gets the message that the writer writes next, byte for
-- byte, and is then where the writer is: if no access was outside the buffer, the message fills the
-- size that was announced, the position does not wrap, and the message lies behind its header in the
-- buffer or, where it goes back to the start of the buffer, ends before its header.
pub deserialize_serialized :
    (l : Layout) (buffer_size : ℕ) (q q' : Queue) (message : List ℕ)
    → 0 < buffer_size
    → length message < 2 ^ 32
    → (q.writer_pos / buffer_size + 1) * buffer_size + buffer_size < 2 ^ 64
    → (q.writer_pos % buffer_size + length message + header_size ≤ buffer_size)
      ⊎ (length message ≤ q.writer_pos % buffer_size)
    → serialize l buffer_size q message (length message) ≡ some q'
    → try_deserialize l buffer_size q' (record { read_position = q.writer_pos })
      ≡ some (record { read_position = q'.writer_pos }, some message)
deserialize_serialized l buffer_size q q' message some_byte short far fits done =
    let (low, high, same) = serialize-some l buffer_size q q' message done in
    rw same (
      deserialize_sized l buffer_size (written l buffer_size q message)
        (record { read_position = q.writer_pos }) (length message)
        (header_kept l buffer_size q message some_byte short fits)
        (moved_on l buffer_size q message some_byte short fits far high) low high
      ∙ ap
          (λ m.
            some (record { read_position = (written l buffer_size q message).writer_pos }, some m))
          (body_kept l buffer_size q message some_byte short fits))
