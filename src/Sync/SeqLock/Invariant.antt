-- ===== src/Sync/SeqLock/Invariant.antt =====
-- What the sequence number of `seq_lock` says of the value and of the buffers, for clients of which
-- one thread stores.
use hope_threading.Prelude.{
  ℕ, ◌+◌, ◌%◌, ◌^◌, ◌≤◌, ◌<◌, ◌≡◌, ◌≢◌, refl, inl, inr, ite, if_pos, if_neg, ℕ_discrete, Bool-cases,
  ltb, arith,
}
use hope_threading.Threads.{Mover}
use hope_threading.Sync.SeqLock.{
  Value, Memory, Place, idle, store_load, store_odd, store_copy, store_even, load_seq, load_copy,
  load_again, Call, store, load, move,
}

-- A client of which only thread `w` stores.
abbrev permit : ℕ → ℕ → Call → Call
permit w i (load buffer) = load buffer
permit w i (store v) = ite (ℕ_discrete i w) (store v) (load v)

abbrev pub one_writer_move : ℕ → ℕ → Mover Call Memory Place
one_writer_move size w c i = move size (permit w i c) i

-- The first `k` units are the same.
abbrev pub Agree : ℕ → Value → Value → Type 0
Agree k a b = (q : ℕ) → q < k → a q ≡ b q

abbrev pub IsEven : ℕ → Type 0
IsEven n = n % 2 ≡ 0

-- What holds of the thread that stores.
abbrev pub AtWriter : ℕ → Memory → Place → Type 0
AtWriter size m (store_odd v seq) = (m.seq ≡ seq) × IsEven seq
AtWriter size m (store_copy v seq k) = (m.seq ≡ seq + 1) × IsEven seq × Agree k m.val v
AtWriter size m (store_even v seq) = (m.seq ≡ seq + 1) × IsEven seq × Agree size m.val v
AtWriter size m p = IsEven m.seq

-- A buffer is right as far as it has been filled, if the sequence number is even and has stayed.
abbrev pub Filled : Memory → ℕ → ℕ → Value → Type 0
Filled m k seq buffer = (seq ≤ m.seq) × (seq ≡ m.seq → IsEven seq → Agree k buffer m.val)

abbrev pub AtReader : ℕ → Memory → Place → Type 0
AtReader size m (load_copy seq buffer k) = Filled m k seq buffer
AtReader size m (load_again seq buffer) = Filled m size seq buffer
AtReader size m p = Unit

abbrev pub OnlyLoads : Place → Type 0
OnlyLoads (store_load v) = ⊥
OnlyLoads (store_odd v seq) = ⊥
OnlyLoads (store_copy v seq k) = ⊥
OnlyLoads (store_even v seq) = ⊥
OnlyLoads p = Unit

-- How a move may change the memory.
pub data Change (m : Memory) : Memory → Type 0 where
  same : Change m m
  later : {m' : Memory} → m.seq < m'.seq → Change m m'
  hidden : {m' : Memory} → m'.seq ≡ m.seq → m.seq % 2 ≡ 1 → Change m m'

Filled-Change :
    {m m' : Memory} (k seq : ℕ) (buffer : Value)
    → Change m m'
    → Filled m k seq buffer
    → Filled m' k seq buffer
Filled-Change k seq buffer same f = f
Filled-Change k seq buffer (later lt) f = (omega arith, λ e ev. absurd (omega arith))
Filled-Change k seq buffer (hidden e odd) f = (omega arith, λ stayed ev. absurd (omega arith))

pub AtReader-Change :
    (size : ℕ) {m m' : Memory} (p : Place) → Change m m' → AtReader size m p → AtReader size m' p
AtReader-Change size (load_copy seq buffer k) c f = Filled-Change k seq buffer c f
AtReader-Change size (load_again seq buffer) c f = Filled-Change size seq buffer c f
AtReader-Change size p c f = tt

module _ (size w : ℕ) where
  -- The writer's moves.
  pub store-AtWriter :
      (c : Call) (i : ℕ) (m : Memory) (p : Place)
      → m.seq + 2 < 2 ^ 64
      → AtWriter size m p
      → AtWriter size (one_writer_move size w c i m p).0 (one_writer_move size w c i m p).1
        × Change m (one_writer_move size w c i m p).0
  unfolding move
  store-AtWriter (load b) i m idle lim at = (at, same)
  store-AtWriter (store v) i m idle lim at = elim (ℕ_discrete i w) [
    | yes e ↦ rw (if_pos (ℕ_discrete i w) e) (at, same)
    | no ne ↦ rw (if_neg (ℕ_discrete i w) ne) (at, same)
  ]
  store-AtWriter c i m (store_load v) lim at = (omega arith, same)
  store-AtWriter c i m (store_odd v seq) lim at =
      ((omega arith, at.1, λ q h. absurd (omega arith)), later (omega arith))
  store-AtWriter c i m (store_copy v seq k) lim at = elim (Bool-cases (ltb k size)) [
    | inl more ↦ rw more (
      (
        at.0,
        at.1,
        λ q h. elim (ℕ_discrete k q) [
          | yes e ↦ rw (if_pos (ℕ_discrete k q) e, e)
          | no ne ↦ rw (if_neg (ℕ_discrete k q) ne) (at.2 q (omega arith))
        ],
      ),
      hidden refl (omega arith),
    )
    | inr done ↦ rw done ((at.0, at.1, λ q h. ground (arith, at.2 q)), same)
  ]
  store-AtWriter c i m (store_even v seq) lim at = (omega arith, later (omega arith))
  store-AtWriter c i m (load_copy seq buffer k) lim at = elim (Bool-cases (ltb k size)) [
    | inl more ↦ rw more (at, same)
    | inr done ↦ rw done (at, same)
  ]
  store-AtWriter c i m p lim at = (at, same)

  -- The moves of the others.
  pub load-OnlyLoads :
      (c : Call) (i : ℕ) (m : Memory) (p : Place)
      → i ≢ w
      → OnlyLoads p
      → OnlyLoads (one_writer_move size w c i m p).1 × ((one_writer_move size w c i m p).0 ≡ m)
  unfolding move
  load-OnlyLoads (load b) i m idle ne v = (tt, refl)
  load-OnlyLoads (store b) i m idle ne v = rw (if_neg (ℕ_discrete i w) ne) (tt, refl)
  load-OnlyLoads c i m (load_copy seq buffer k) ne v = ground arith
  load-OnlyLoads c i m p ne v = ground arith

  -- What a mover itself has read.
  pub own-AtReader :
      (c : Call) (i : ℕ) (m : Memory) (p : Place)
      → AtReader size m p
      → AtReader size (one_writer_move size w c i m p).0 (one_writer_move size w c i m p).1
  unfolding move
  own-AtReader (load b) i m idle v = tt
  own-AtReader (store b) i m idle v = ground arith
  own-AtReader c i m (store_copy u seq k) v = ground arith
  own-AtReader c i m (load_seq buffer) v = (omega arith, λ e ev q h. absurd (omega arith))
  own-AtReader c i m (load_copy seq buffer k) v = elim (Bool-cases (ltb k size)) [
    | inl more ↦ rw more (
      v.0,
      λ e ev q h. elim (ℕ_discrete k q) [
        | yes here ↦ rw (if_pos (ℕ_discrete k q) here, here)
        | no ne ↦ rw (if_neg (ℕ_discrete k q) ne) (v.1 e ev q (omega arith))
      ],
    )
    | inr done ↦ rw done (v.0, λ e ev q h. v.1 e ev q (ground arith))
  ]
  own-AtReader c i m p v = tt
