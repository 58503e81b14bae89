-- ===== src/Queue/SpmcBytes.antt =====
-- `spmc_bounded_non_uniform_queue` of
-- lib/hope_thread/containers/queue/spmc_bounded_non_uniform_queue.h, a call at a time: messages of any
-- length in a ring of bytes, each behind its length.
pub mod Bytes
pub mod RoundTrip
pub mod Aligned
mod Tests
use hope_threading.Prelude.{
  ℕ, ◌+◌, ◌*◌, ◌/◌, ◌%◌, ◌^◌, ◌<◌, ◌≡◌, Option, none, some, List, ltb, ◌==◌, if◌then◌else◌, length,
}
use hope_threading.Queue.SpmcBytes.Bytes.{write_bytes, read_bytes}

-- How the machine lays out a `uint32_t` in four bytes.
pub record Layout : Type 0 where
  pub encode : ℕ → List ℕ
  pub decode : List ℕ → ℕ
  pub length-encode : (n : ℕ) → length (encode n) ≡ 4
  pub decode-encode : (n : ℕ) → n < 2 ^ 32 → decode (encode n) ≡ n

-- `m_writer_pos` and `m_buffer`
pub record Queue : Type 0 where
  pub writer_pos : ℕ
  pub buffer : ℕ → ℕ

-- `consumer`: `m_local_read_position`
pub record Consumer : Type 0 where
  pub read_position : ℕ

abbrev pub header_size : ℕ
header_size = 4

-- The position behind a message, and where its bytes begin.
abbrev pub after : ℕ → ℕ → ℕ → ℕ × ℕ
after buffer_size pos size =
    if ltb buffer_size (pos % buffer_size + size + header_size)
    then ((pos / buffer_size + 1) * buffer_size + size, 0)
    else (pos + header_size + size, pos % buffer_size + header_size)

module _ (l : Layout) (buffer_size : ℕ) where
  -- `seirialize`, of which `f` writes `message`. `none` is an access outside the buffer.
  unfoldable pub serialize : Queue → List ℕ → ℕ → Option Queue
  serialize q message size =
      let pos = q.writer_pos % buffer_size in
      let (next, start) = after buffer_size q.writer_pos size in
      let headed = write_bytes q.buffer pos (l.encode (size % 2 ^ 32)) in
      if ltb buffer_size (pos + header_size)
      then none
      else if ltb buffer_size (start + length message)
      then none
      else some (record { writer_pos = next % 2 ^ 64; buffer = write_bytes headed start message })

  -- `try_deserialize`, with the bytes that `f` is given, if there is a message.
  unfoldable pub try_deserialize : Queue → Consumer → Option (Consumer × Option (List ℕ))
  try_deserialize q c =
      let pos = c.read_position % buffer_size in
      let size = l.decode (read_bytes q.buffer pos header_size) in
      let (next, start) = after buffer_size c.read_position size in
      if q.writer_pos == c.read_position
      then some (c, none)
      else if ltb buffer_size (pos + header_size)
      then none
      else if ltb buffer_size (start + size)
      then none
      else some (record { read_position = next % 2 ^ 64 }, some (read_bytes q.buffer start size))
