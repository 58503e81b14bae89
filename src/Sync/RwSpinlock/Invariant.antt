-- ===== src/Sync/RwSpinlock/Invariant.antt =====
-- The word of `rw_spinlock` counts the marks of the threads, and a writer is alone.
use hope_threading.Prelude.{ℕ, ◌+◌, ◌*◌, ◌^◌, ◌≤◌, ◌<◌, ◌≡◌, refl, sym, ◌⊎◌, inl, arith}
use hope_threading.Threads.{
  update, total, total-update, total-const, total-le_bound, total_mono_two, System, Reach,
  Reach-keeps,
}
use hope_threading.Sync.RwSpinlock.{
  one_writer, Place, idle, shared_undo, reading, exclusive_undo, writing, Call, move,
}

-- What a thread has added to the word.
abbrev pub mark : Place → ℕ
mark shared_undo = 1
mark reading = 1
mark exclusive_undo = one_writer
mark writing = one_writer
mark _ = 0

abbrev pub reads : Place → ℕ
reads reading = 1
reads _ = 0

abbrev pub writes : Place → ℕ
writes writing = 1
writes _ = 0

-- Over the word and the three sums.
pub record Counts (n m marks readers writers : ℕ) : Type 0 where
  pub exact : m ≡ marks
  pub room : marks ≤ n * one_writer
  pub holders : readers + writers * one_writer ≤ marks
  pub alone : (writers ≡ 0) ⊎ ((writers ≡ 1) × (readers ≡ 0))

abbrev pub Inv : ℕ → ℕ → (ℕ → Place) → Type 0
Inv n m pc = Counts n m (total mark n pc) (total reads n pc) (total writes n pc)

-- One move, over the sums before and after it.
move-Counts :
    (n : ℕ) (c : Call) (i m : ℕ) (p : Place) {k r w k' r' w' : ℕ}
    → n < 2 ^ 12
    → k' ≤ n * one_writer
    → r' + w' * one_writer ≤ k'
    → k' + mark p ≡ k + mark (move c i m p).1
    → r' + reads p ≡ r + reads (move c i m p).1
    → w' + writes p ≡ w + writes (move c i m p).1
    → Counts n m k r w
    → Counts n (move c i m p).0 k' r' w'
unfolding move
move-Counts n c i m idle few b h ek er ew v = ground arith
move-Counts n c i m p few b h ek er ew v = ground arith

mark_bound : (p : Place) → mark p ≤ one_writer
mark_bound p = ground arith

holds-le-mark : (p : Place) → reads p + writes p * one_writer ≤ mark p
holds-le-mark p = ground arith

holders-le :
    (n : ℕ) (pc : ℕ → Place) → total reads n pc + total writes n pc * one_writer ≤ total mark n pc
holders-le = total_mono_two reads writes mark one_writer holds-le-mark

pub Inv-start : (n : ℕ) → Inv n 0 (λ _. idle)
Inv-start n = record {
  exact = sym (total-const mark n idle refl);
  room = total-le_bound mark one_writer mark_bound n (λ _. idle);
  holders = holders-le n (λ _. idle);
  alone = inl (total-const writes n idle refl);
}

pub move-Inv :
    (n : ℕ)
    → n < 2 ^ 12
    → (i : ℕ) (c : Call) (m : ℕ) (pc : ℕ → Place) → i < n
    → Inv n m pc
    → Inv n (move c i m (pc i)).0 (update pc i (move c i m (pc i)).1)
move-Inv n few i c m pc lt v =
    let p' = (move c i m (pc i)).1 in
    let pc' : ℕ → Place = update pc i p' in
    move-Counts n c i m (pc i) few (total-le_bound mark one_writer mark_bound n pc')
      (holders-le n pc') (total-update mark n pc i p' lt) (total-update reads n pc i p' lt)
      (total-update writes n pc i p' lt) v

-- The lock as it is constructed: a zero word, and no thread in a call.
abbrev pub initial : System ℕ Place
initial = record { mem = 0; pc = λ _. idle }

pub Reach-Inv :
    {n : ℕ} {s : System ℕ Place} → n < 2 ^ 12 → Reach move n initial s → Inv n s.mem s.pc
Reach-Inv {n} few r = Reach-keeps move n (Inv n) (move-Inv n few) (Inv-start n) r
