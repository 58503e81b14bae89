-- ===== src/Queue/SpmcOverlap/Reached.antt =====
-- What holds in each reachable state of `spmc_bounded_message_queue`.
use hope_threading.Prelude.{
  ℕ, ◌+◌, ◌^◌, ◌≤◌, ◌<◌, ◌≡◌, refl, sym, subst, if_pos, if_neg, arith, ℕ_discrete, length,
}
use hope_threading.Threads.{update, update-each, System, Reach, moves, Reach-keeps_counted}
use hope_threading.Queue.SpmcOverlap.{Message, Queue, Place, Call, outside, new}
use hope_threading.Queue.SpmcOverlap.Invariant.{one_writer, ahead, At, Newest, Moved, move-Moved}

-- After `k` moves.
pub record Inv {A : Type 0} (size units k : ℕ) (q : Queue A) (pc : ℕ → Place A) : Type 0 where
  pub newest : Newest size units q
  pub counted : length q.log ≡ q.writer_pos + ahead size units (pc 0)
  pub few : length q.log ≤ k
  pub places : (i : ℕ) → At size units q i (pc i)

module _ {A : Type 0} (size units : ℕ) (blank : Message A) (k i : ℕ) (c : Call A) (q : Queue A)
    (pc : ℕ → Place A) (lim : k + 1 < 2 ^ 62) (v : Inv size units k q pc) where
  abbrev q' : Queue A
  q' = (one_writer size units blank c i q (pc i)).0

  abbrev p' : Place A
  p' = (one_writer size units blank c i q (pc i)).1

  moved : Moved size units i q (pc i) q' p'
  moved =
      move-Moved size units blank q v.newest (omega (arith, v.few, lim)) c i (pc i) (v.places i)
        (λ z. subst (λ j. length q.log ≡ q.writer_pos + ahead size units (pc j)) (sym z) v.counted)
        (omega (arith, v.counted))

  counted' : length q'.log ≡ q'.writer_pos + ahead size units (update pc i p' 0)
  counted' = elim (ℕ_discrete i 0) [
    | yes z ↦ rw (if_pos (ℕ_discrete i 0) z) (moved.counted.0 z)
    | no ne ↦
        rw (if_neg (ℕ_discrete i 0) ne)
          (omega (arith, v.counted, moved.counted.1 (omega (arith, ne))))
  ]

  move-Inv : Inv size units (k + 1) q' (update pc i p')
  move-Inv = record {
    newest = moved.newest;
    counted = counted';
    few = omega (arith, moved.small, v.few);
    places = λ j.
        update-each (λ j p. At size units q' j p) pc i j moved.own
          (λ ne. moved.others j (pc j) ne (v.places j));
  }

-- The queue as it is constructed, and no thread in a call.
abbrev pub initial : {A : Type 0} → Message A → System (Queue A) (Place A)
initial blank = record { mem = new (blank 0); pc = λ _. outside }

pub Reach-Inv :
    {A : Type 0} {size units n : ℕ} (blank : Message A) {s : System (Queue A) (Place A)}
    → (r : Reach (one_writer size units blank) n (initial blank) s)
    → moves (one_writer size units blank) r < 2 ^ 62
    → Inv size units (moves (one_writer size units blank) r) s.mem s.pc
unfolding new
Reach-Inv {A} {size} {units} {n} blank r few =
    Reach-keeps_counted (one_writer size units blank) n
      (λ k q pc. k < 2 ^ 62 → Inv size units k q pc)
      (λ k i c q pc lt before lim. move-Inv size units blank k i c q pc lim (before (omega arith)))
      (λ _. record {
        newest = λ p lo hi. absurd (omega arith);
        counted = refl;
        few = omega arith;
        places = λ i. tt;
      })
      r few
