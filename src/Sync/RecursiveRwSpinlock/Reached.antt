-- ===== src/Sync/RecursiveRwSpinlock/Reached.antt =====
-- The word and the depth in each reachable state, for ids that are not 0 and differ.
use hope_threading.Prelude.{
  ℕ, zero, ◌+◌, ◌*◌, ◌^◌, ◌≤◌, ◌<◌, ◌≡◌, refl, ◌⊎◌, inl, inr, ◌≢◌, arith, ℕ_discrete,
}
use hope_threading.Threads.{
  le-total, update, total, total-update, total-const, total-le_each, total-pos, total_mono,
  update-each, System, Reach, Reach-keeps,
}
use hope_threading.Sync.RecursiveRwSpinlock.{Lock, Place, Call, owner_id, between}
use hope_threading.Sync.RecursiveRwSpinlock.Nested.{
  nested_move, Among, Others, IsPlace, holds, reads, read_marks, write_marks, depth_of, id_in,
}
use hope_threading.Sync.RecursiveRwSpinlock.Moves.{move-Keeps}

-- What a thread's id is taken to be: a word of 32 bits that is not 0 and that no other thread has.
pub record Ids (n : ℕ) (id : ℕ → ℕ) : Type 0 where
  pub an_id : (i : ℕ) → i < n → (0 < id i) × (id i < 2 ^ 32)
  pub distinct : (i j : ℕ) → i < n → j < n → id i ≡ id j → i ≡ j

abbrev pub Mine : ℕ → Lock → Place → Type 0
Mine me m p = IsPlace p × (holds p ≡ 1 → (m.depth ≡ depth_of p) × (owner_id m.word ≡ id_in me p))

pub record Inv (n : ℕ) (id : ℕ → ℕ) (m : Lock) (pc : ℕ → Place) : Type 0 where
  pub exact :
      m.word ≡ total read_marks n pc + total write_marks n pc * 2 ^ 20 + owner_id m.word * 2 ^ 32
  pub bounded : m.word < 2 ^ 64
  pub alone : (total holds n pc ≡ 0) ⊎ ((total holds n pc ≡ 1) × (total reads n pc ≡ 0))
  pub nobody : total holds n pc ≡ 0 → (m.depth ≡ 0) × (owner_id m.word ≡ 0)
  pub places : (j : ℕ) → j < n → Mine (id j) m (pc j)

read_marks-le : (p : Place) → IsPlace p → read_marks p ≤ 255
read_marks-le (between r zero) h = ground (arith, h)
read_marks-le p h = ground (arith, h)

reads-le : (p : Place) → reads p ≤ read_marks p
reads-le p = ground arith

holds-le : (p : Place) → holds p ≤ write_marks p
holds-le p = ground arith

write_marks-le : (p : Place) → write_marks p ≤ 1
write_marks-le p = ground arith

id_in-cases : (me : ℕ) (p : Place) → (id_in me p ≡ 0) ⊎ (id_in me p ≡ me)
id_in-cases me p = ground arith

module _ (n : ℕ) (id : ℕ → ℕ) (few : n + 1 < 2 ^ 12) (ids : Ids n id) where
  module _ (i : ℕ) (m : Lock) (pc : ℕ → Place) (lt : i < n) (inv : Inv n id m pc) where
    -- The others, with thread `i` as one that holds nothing.
    abbrev others : ℕ → Place
    others = update pc i (between 0 0)

    rest :
        (w : Place → ℕ) (p' : Place)
        → w (between 0 0) ≡ 0
        → total w n (update pc i p') ≡ w p' + total w n others
    rest w p' none =
        omega (arith, total-update w n pc i p' lt, total-update w n pc i (between 0 0) lt, none)

    same : (w : Place → ℕ) → w (between 0 0) ≡ 0 → total w n pc ≡ w (pc i) + total w n others
    same w none = omega (arith, total-update w n pc i (between 0 0) lt, none)

    others-IsPlace : (j : ℕ) → j < n → IsPlace (others j)
    others-IsPlace j below = ground (arith, (inv.places j below).0)

    not_mine : total holds n others ≡ 1 → owner_id m.word ≢ id i
    not_mine one mine =
        let (j, below, some) = total-pos holds n others (omega (arith, one)) in
        elim (ℕ_discrete i j) [
          | yes e ↦ absurd (ground (arith, some, e))
          | no ne ↦
              let owns =
                (inv.places j below).1
                  (ground (arith, some, ne, holds-le (pc j), write_marks-le (pc j))) in
              elim (id_in-cases (id j) (pc j)) [
                | inl none ↦ omega (arith, owns, none, mine, ids.an_id i lt)
                | inr hers ↦ ne (ids.distinct i j lt below (omega (arith, owns, hers, mine)))
              ]
        ]

    others-lem :
        Others
          (id i)
          (total read_marks n others)
          (total write_marks n others)
          (total reads n others)
          (total holds n others)
          m
    others-lem = record {
      room = (
        omega (
          arith,
          few,
          total-le_each read_marks 255 n others
              (λ j below. read_marks-le (others j) (others-IsPlace j below)),
        ),
        omega (
          arith,
          few,
          total-le_each write_marks 1 n others (λ j below. write_marks-le (others j)),
        ),
      );
      parts = (
        total_mono reads read_marks reads-le n others,
        total_mono holds write_marks holds-le n others,
      );
      an_id = ids.an_id i lt;
      not_mine = not_mine;
    }

    among :
        Among
          (id i)
          (total read_marks n others)
          (total write_marks n others)
          (total reads n others)
          (total holds n others)
          m
          (pc i)
    among = record {
      exact = omega (arith, inv.exact, same read_marks refl, same write_marks refl);
      bounded = inv.bounded;
      stands = (inv.places i lt).0;
      alone = ground (arith, inv.alone, same holds refl, same reads refl);
      mine = (inv.places i lt).1;
      nobody = λ h. inv.nobody (omega (arith, h, same holds refl));
    }

    module _ (c : Call) where
      abbrev m' : Lock
      m' = (nested_move id c i m (pc i)).0

      abbrev p' : Place
      p' = (nested_move id c i m (pc i)).1

      kept :
          Among
            (id i)
            (total read_marks n others)
            (total write_marks n others)
            (total reads n others)
            (total holds n others)
            m'
            p'
      kept =
          (move-Keeps id i (total read_marks n others) (total write_marks n others)
            (total reads n others) (total holds n others) c m (pc i) among others-lem).0

      untouched :
          total holds n others ≡ 1 → (m'.depth ≡ m.depth) × (owner_id m'.word ≡ owner_id m.word)
      untouched =
          (move-Keeps id i (total read_marks n others) (total write_marks n others)
            (total reads n others) (total holds n others) c m (pc i) among others-lem).1

      stays : (j : ℕ) → j < n → i ≢ j → Mine (id j) m' (pc j)
      stays j below ne =
          let says = inv.places j below in
          (
            says.0,
            λ h.
                let one : total holds n others ≡ 1 =
                  ground
                    (arith, le-total holds n others j below, ne, h, inv.alone, same holds refl) in
                ground (arith, untouched one, says.1 h),
          )

      move-Inv : Inv n id m' (update pc i p')
      move-Inv = record {
        exact = omega (arith, kept.exact, rest read_marks p' refl, rest write_marks p' refl);
        bounded = kept.bounded;
        alone = ground (arith, kept.alone, rest holds p' refl, rest reads p' refl);
        nobody = λ h. kept.nobody (omega (arith, h, rest holds p' refl));
        places = λ j below.
            update-each (λ k p. Mine (id k) m' p) pc i j (kept.stands, kept.mine)
              (λ ne. stays j below ne);
      }

-- The lock as it is constructed, and no thread in a call.
abbrev pub initial : System Lock Place
initial = record { mem = record { word = 0; depth = 0 }; pc = λ _. between 0 0 }

initial-Inv : (n : ℕ) (id : ℕ → ℕ) → Inv n id initial.mem initial.pc
initial-Inv n id = record {
  exact = omega (
    arith,
    total-const read_marks n (between 0 0) refl,
    total-const write_marks n (between 0 0) refl,
  );
  bounded = omega arith;
  alone = inl (total-const holds n (between 0 0) refl);
  nobody = λ h. (refl, refl);
  places = λ j lt. ground arith;
}

pub Reach-Inv :
    {n : ℕ} {id : ℕ → ℕ} {s : System Lock Place}
    → n + 1 < 2 ^ 12
    → Ids n id
    → Reach (nested_move id) n initial s
    → Inv n id s.mem s.pc
Reach-Inv {n} {id} few ids r =
    Reach-keeps (nested_move id) n (Inv n id)
      (λ i c m pc lt inv. move-Inv n id few ids i m pc lt inv c) {s = initial} (initial-Inv n id) r
