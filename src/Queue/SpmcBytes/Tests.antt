-- ===== src/Queue/SpmcBytes/Tests.antt =====
-- `spmc_bounded_non_uniform_queue` with the lengths in little-endian order, and the theorems there.
use hope_threading.Prelude.{
  ℕ, ◌+◌, ◌*◌, ◌/◌, ◌%◌, ◌^◌, ◌<◌, ◌≡◌, refl, inl, none, some, List, [], ◌∷◌, arith,
}
use hope_threading.Queue.SpmcBytes.{Layout, Queue, serialize, try_deserialize}
use hope_threading.Queue.SpmcBytes.RoundTrip.{written, deserialize_serialized}
use hope_threading.Queue.SpmcBytes.Aligned.{aligned_serialize}

abbrev encode : ℕ → List ℕ
encode n = n % 256 ∷ n / 256 % 256 ∷ n / 65536 % 256 ∷ n / 16777216 ∷ []

abbrev decode : List ℕ → ℕ
decode (a ∷ b ∷ c ∷ d ∷ []) = a + b * 256 + c * 65536 + d * 16777216
decode _ = 0

decode-encode : (n : ℕ) → n < 2 ^ 32 → decode (encode n) ≡ n
decode-encode n h = omega arith

abbrev little_endian : Layout
little_endian = record {
  encode = encode;
  decode = decode;
  length-encode = λ n. refl;
  decode-encode = decode-encode;
}

abbrev fresh : Queue
fresh = record { writer_pos = 0; buffer = λ _. 0 }

deserialize_serialized_example :
    try_deserialize little_endian 16
      (written little_endian 16 fresh (7 ∷ 8 ∷ []))
      (record { read_position = 0 })
    ≡ some (record { read_position = 6 }, some (7 ∷ 8 ∷ []))
unfolding serialize
deserialize_serialized_example =
    deserialize_serialized little_endian 16 fresh (written little_endian 16 fresh (7 ∷ 8 ∷ []))
      (7 ∷ 8 ∷ []) (omega arith) (omega arith) (omega arith) (inl (omega arith)) refl

aligned_serialize_example :
    (q' : Queue) × (serialize little_endian 16 fresh (7 ∷ 8 ∷ 9 ∷ 1 ∷ []) 4 ≡ some q')
    × (q'.writer_pos % 4 ≡ 0)
aligned_serialize_example =
    aligned_serialize little_endian 16 fresh (7 ∷ 8 ∷ 9 ∷ 1 ∷ []) refl refl refl (omega arith)

-- Three messages of one byte in a buffer of 16: the length of the fourth would end at byte 19.
fourth_overflows :
    serialize little_endian 16 (record { writer_pos = 15; buffer = λ _. 0 }) (7 ∷ []) 1 ≡ none
unfolding serialize
fourth_overflows = refl
