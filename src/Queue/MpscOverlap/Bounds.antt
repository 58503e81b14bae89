-- ===== src/Queue/MpscOverlap/Bounds.antt =====
-- The positions of `mpsc_bounded_queue` in each reachable state, overfilled or not.
use hope_threading.Prelude.{
  ℕ, zero, suc, ◌+◌, ◌-◌, ◌%◌, ◌^◌, ◌≤◌, ◌<◌, ◌≡◌, refl, inl, inr, true, false, none, [], ◌∷◌,
  arith, ◌==◌, Bool-cases, ltb, length, length-append,
}
use hope_threading.Threads.{update, update-each}
use hope_threading.Queue.MpscOverlap.{
  update, Queue, Place, Call, move, exchanged, enter, try_enqueue, try_dequeue, idle, enqueue_load,
  enqueue_test, enqueue_exchange, enqueue_write, enqueue_ready, dequeue_test, dequeue_look,
  dequeue_read, dequeue_clear, dequeue_move, enqueued, dequeued,
}
use hope_threading.Queue.MpscOverlap.Invariant.{sole_move}

module _ {A : Type 0} (size : ℕ) where
  abbrev pub Where : Queue A → ℕ → Place A → Type 0
  Where q j (idle r) = Unit
  Where q j (enqueue_test v pos) = (0 < j) × (pos ≤ q.head)
  Where q j (enqueue_exchange v pos) = (0 < j) × (pos ≤ q.head) × (pos ≤ q.tail + size)
  Where q j (enqueue_write v pos) = (0 < j) × (pos < q.head)
  Where q j (enqueue_ready pos) = (0 < j) × (pos < q.head)
  Where q j dequeue_test = j ≡ 0
  Where q j dequeue_look = (j ≡ 0) × (q.tail < q.head)
  Where q j dequeue_read = (j ≡ 0) × (q.tail < q.head)
  Where q j (dequeue_clear v) = (j ≡ 0) × (q.tail < q.head)
  Where q j (dequeue_move v) = (j ≡ 0) × (q.tail < q.head)
  Where q j _ = 0 < j

  -- At most one item more than there are cells.
  pub record Within (q : Queue A) : Type 0 where
    pub order : q.tail ≤ q.head
    pub room : q.head ≤ q.tail + size + 1
    pub counted : length q.entered ≡ q.head

  record Moved (i : ℕ) (q : Queue A) (p : Place A) (q' : Queue A) (p' : Place A) : Type 0 where
    pub within : Within q'
    pub own : Where q' i p'
    pub small : q'.head ≤ q.head + 1
    pub heads : q.head ≤ q'.head
    pub tails : q.tail ≤ q'.tail
    pub others : 0 < i → q'.tail ≡ q.tail

  Where-grows :
      (q q' : Queue A) (j : ℕ) (p : Place A)
      → q.head ≤ q'.head
      → q.tail ≤ q'.tail
      → (j ≡ 0 → q'.tail ≡ q.tail)
      → Where q j p
      → Where q' j p
  Where-grows q q' j (idle r) h t z at = at
  Where-grows q q' j (enqueue_load v) h t z at = at
  Where-grows q q' j (enqueue_test v pos) h t z at = omega (arith, at, h)
  Where-grows q q' j (enqueue_exchange v pos) h t z at = omega (arith, at, h, t)
  Where-grows q q' j (enqueue_write v pos) h t z at = omega (arith, at, h)
  Where-grows q q' j (enqueue_ready pos) h t z at = omega (arith, at, h)
  Where-grows q q' j dequeue_test h t z at = at
  Where-grows q q' j dequeue_look h t z at = omega (arith, at, h, z at.0)
  Where-grows q q' j dequeue_read h t z at = omega (arith, at, h, z at.0)
  Where-grows q q' j (dequeue_clear v) h t z at = omega (arith, at, h, z at.0)
  Where-grows q q' j (dequeue_move v) h t z at = omega (arith, at, h, z at.0)

  module _ (blank : A) (q : Queue A) (w : Within q) (cells : size ≤ 2 ^ 62)
      (bound : q.head + 1 < 2 ^ 62) where
    quiet :
        (i : ℕ) (p : Place A) (q' : Queue A) (p' : Place A)
        → q'.head ≡ q.head
        → q'.tail ≡ q.tail
        → q'.entered ≡ q.entered
        → Where q' i p'
        → Moved i q p q' p'
    quiet i p q' p' h t e at = record {
      within = record {
        order = omega (arith, w.order, h, t);
        room = omega (arith, w.room, h, t);
        counted = ground (arith, w.counted, h, e);
      };
      own = at;
      small = omega (arith, h);
      heads = omega (arith, h);
      tails = omega (arith, t);
      others = λ pos. t;
    }

    move-Moved :
        (c : Call A) (i : ℕ) (p : Place A)
        → Where q i p
        → Moved i q p (sole_move size blank c i q p).0 (sole_move size blank c i q p).1
    unfolding move enter exchanged
    move-Moved c zero (idle r) at = quiet 0 (idle r) q dequeue_test refl refl refl refl
    move-Moved (try_enqueue v) (suc i) (idle r) at =
        quiet (suc i) (idle r) q (enqueue_load v) refl refl refl (omega arith)
    move-Moved try_dequeue (suc i) (idle r) at =
        quiet (suc i) (idle r) q (enqueue_load blank) refl refl refl (omega arith)
    move-Moved c i (enqueue_load v) at =
        quiet i (enqueue_load v) q (enqueue_test v q.head) refl refl refl (at, omega arith)
    move-Moved c i (enqueue_test v pos) at =
        elim (Bool-cases (ltb size ((pos + 2 ^ 64 - q.tail) % 2 ^ 64))) [
          | inl over ↦
              rw over (quiet i (enqueue_test v pos) q (idle (enqueued false)) refl refl refl tt)
          | inr fits ↦ rw fits (
              quiet i (enqueue_test v pos) q (enqueue_exchange v pos) refl refl refl
                (at.0, at.1, ground (arith, fits, at, bound, w.order, cells)))
        ]
    move-Moved c i (enqueue_exchange v pos) at = elim (Bool-cases (q.head == pos)) [
      | inl hit ↦ rw hit (record {
        within = record {
          order = ground (arith, hit, w.order, bound);
          room = ground (arith, hit, at, bound);
          counted = ground (arith, hit, w.counted, bound, length-append q.entered (v ∷ []));
        };
        own = (at.0, ground (arith, hit, bound));
        small = ground (arith, hit, bound);
        heads = ground (arith, hit, bound);
        tails = omega arith;
        others = λ mine. refl;
      })
      | inr miss ↦ rw miss (
          quiet i (enqueue_exchange v pos) q (enqueue_test v q.head) refl refl refl
            (at.0, omega arith))
    ]
    move-Moved c i (enqueue_write v pos) at =
        quiet i (enqueue_write v pos) (move size c i q (enqueue_write v pos)).0 (enqueue_ready pos)
          refl refl refl at
    move-Moved c i (enqueue_ready pos) at =
        quiet i (enqueue_ready pos) (move size c i q (enqueue_ready pos)).0 (idle (enqueued true))
          refl refl refl tt
    move-Moved c i dequeue_test at = elim (Bool-cases (q.head == q.tail)) [
      | inl empty ↦ rw empty (quiet i dequeue_test q (idle (dequeued none)) refl refl refl tt)
      | inr filled ↦
          rw filled (
            quiet i dequeue_test q dequeue_look refl refl refl
              (at, ground (arith, filled, w.order)))
    ]
    move-Moved c i dequeue_look at = elim (Bool-cases (q.ready (q.tail % size))) [
      | inl set ↦ rw set (quiet i dequeue_look q dequeue_read refl refl refl at)
      | inr unset ↦ rw unset (quiet i dequeue_look q (idle (dequeued none)) refl refl refl tt)
    ]
    move-Moved c i dequeue_read at =
        quiet i dequeue_read q (dequeue_clear (q.value (q.tail % size))) refl refl refl at
    move-Moved c i (dequeue_clear v) at =
        quiet i (dequeue_clear v) (move size c i q (dequeue_clear v)).0 (dequeue_move v) refl refl
          refl at
    move-Moved c i (dequeue_move v) at = record {
      within = record {
        order = ground (arith, at, bound);
        room = ground (arith, at, bound, w.room);
        counted = w.counted;
      };
      own = tt;
      small = omega arith;
      heads = omega arith;
      tails = ground (arith, at, bound);
      others = λ mine. absurd (omega (arith, mine, at));
    }

  pub record Placed (k : ℕ) (q : Queue A) (pc : ℕ → Place A) : Type 0 where
    pub within : Within q
    pub few : q.head ≤ k
    pub places : (i : ℕ) → Where q i (pc i)

  module _ (blank : A) (k i : ℕ) (c : Call A) (q : Queue A) (pc : ℕ → Place A)
      (cells : size ≤ 2 ^ 62) (lim : k + 1 < 2 ^ 62) (v : Placed k q pc) where
    moved :
        Moved i q (pc i) (sole_move size blank c i q (pc i)).0 (sole_move size blank c i q (pc i)).1
    moved = move-Moved blank q v.within cells (omega (arith, v.few, lim)) c i (pc i) (v.places i)

    pub move-Placed :
        Placed
          (k + 1)
          (sole_move size blank c i q (pc i)).0
          (update pc i (sole_move size blank c i q (pc i)).1)
    move-Placed = record {
      within = moved.within;
      few = omega (arith, moved.small, v.few);
      places = λ j.
          update-each (λ j p. Where (sole_move size blank c i q (pc i)).0 j p) pc i j moved.own
            (λ ne.
              Where-grows q (sole_move size blank c i q (pc i)).0 j (pc j) moved.heads moved.tails
                (λ z. moved.others (omega (arith, ne, z))) (v.places j));
    }
