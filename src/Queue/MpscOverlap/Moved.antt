-- ===== src/Queue/MpscOverlap/Moved.antt =====
-- What each move of `mpsc_bounded_queue` leaves.
use hope_threading.Prelude.{
  ℕ, zero, suc, Bool, ◌+◌, ◌-◌, ◌%◌, ◌^◌, ◌≤◌, ◌<◌, ◌≡◌, refl, sym, inl, inr, arith, ◌==◌, ==_iff,
  Bool-cases, ltb, true, false, some, none, subst, if◌then◌else◌,
}
use native.Mathlib.Nat.{mod-eq_of_lt}
use hope_threading.Queue.MpscOverlap.{
  Queue, Place, Call, move, exchanged, enter, try_enqueue, try_dequeue, idle, enqueue_load,
  enqueue_test, enqueue_exchange, enqueue_write, enqueue_ready, dequeue_test, dequeue_look,
  dequeue_read, dequeue_clear, dequeue_move, enqueued, dequeued,
}
use hope_threading.Queue.MpscOverlap.Invariant.{sole_move, gone, entering, At, Shape, Moved}
use hope_threading.Queue.MpscOverlap.Keeps.{quiet, exchange-Moved}
use hope_threading.Queue.MpscOverlap.Published.{write-Moved, ready-Moved}
use hope_threading.Queue.MpscOverlap.Consumed.{clear-Moved, step-Moved}

module _ {A : Type 0} (size : ℕ) (blank : A) (q : Queue A) (low : ℕ) (shape : Shape size q low)
    (bound : q.head + 1 < 2 ^ 62) where
  abbrev Leaves : ℕ → Place A → Queue A → Place A → Type 0
  Leaves i p q' p' = (low' : ℕ) × Moved size i q low p q' low' p'

  stays :
      (i : ℕ) (p p' : Place A)
      → At size q low i p'
      → (entering size p' ≡ none)
      → (i ≡ 0 → low ≡ q.tail + gone size p')
      → Leaves i p q p'
  stays i p p' at none_taken lowest = (low, quiet size q low shape i p p' at none_taken lowest)

  tested :
      (i : ℕ) (v : A) (pos : ℕ) (refused : Bool)
      → 0 < i
      → pos ≤ q.head
      → Leaves i
          (enqueue_test v pos)
          q
          (if refused then idle (enqueued false) else enqueue_exchange v pos)
  tested i v pos true mine le =
      stays i (enqueue_test v pos) (idle (enqueued false)) tt refl
        (λ z. absurd (omega (arith, z, mine)))
  tested i v pos false mine le =
      stays i (enqueue_test v pos) (enqueue_exchange v pos) (mine, le) refl
        (λ z. absurd (omega (arith, z, mine)))

  exchange :
      (i : ℕ) (v : A) (pos : ℕ)
      → 0 < i
      → pos ≤ q.head
      → (exchanged size q v pos).0.overfilled ≡ false
      → Leaves i (enqueue_exchange v pos) (exchanged size q v pos).0 (exchanged size q v pos).1
  unfolding exchanged
  exchange i v pos mine le fits = elim (Bool-cases (q.head == pos)) [
    | inl hit ↦
        subst
          (λ x. Leaves i (enqueue_exchange v x) (exchanged size q v x).0 (exchanged size q v x).1)
          ((==_iff q.head pos).0 hit)
          (rw
            (
              (==_iff q.head q.head).1 refl,
              mod-eq_of_lt {n = q.head + 1} {m = 2 ^ 64} (omega (arith, bound)),
              room hit,
            )
            (low, exchange-Moved size q low shape i v mine (ground (arith, room hit))))
    | inr miss ↦ rw miss (
        stays i (enqueue_exchange v pos) (enqueue_test v q.head) (mine, omega arith) refl
          (λ z. absurd (omega (arith, z, mine))))
  ]
    where
      room : (q.head == pos) ≡ true → ltb q.head (q.tail + size) ≡ true
      room hit = elim (Bool-cases (ltb q.head (q.tail + size))) [
        | inl some_room ↦ some_room
        | inr full ↦ absurd (ground (arith, fits, hit, full))
      ]

  pub move-Moved :
      (c : Call A) (i : ℕ) (p : Place A)
      → At size q low i p
      → (i ≡ 0 → low ≡ q.tail + gone size p)
      → (sole_move size blank c i q p).0.overfilled ≡ false
      → Leaves i p (sole_move size blank c i q p).0 (sole_move size blank c i q p).1
  unfolding move enter
  move-Moved c zero (idle r) at is fits = stays 0 (idle r) dequeue_test refl refl is
  move-Moved (try_enqueue v) (suc i) (idle r) at is fits =
      stays (suc i) (idle r) (enqueue_load v) (omega arith) refl (λ z. is z)
  move-Moved try_dequeue (suc i) (idle r) at is fits =
      stays (suc i) (idle r) (enqueue_load blank) (omega arith) refl (λ z. is z)
  move-Moved c i (enqueue_load v) at is fits =
      stays i (enqueue_load v) (enqueue_test v q.head) (at, omega arith) refl is
  move-Moved c i (enqueue_test v pos) (mine, le) is fits =
      tested i v pos (ltb size ((pos + 2 ^ 64 - q.tail) % 2 ^ 64)) mine le
  move-Moved c i (enqueue_exchange v pos) (mine, le) is fits = exchange i v pos mine le fits
  move-Moved c i (enqueue_write v pos) (mine, taken, e) is fits =
      (low, write-Moved size q low shape v pos taken i mine e)
  move-Moved c i (enqueue_ready pos) (mine, taken, e) is fits =
      (low, ready-Moved size q low shape blank pos taken i mine e)
  move-Moved c i dequeue_test z is fits = elim (Bool-cases (q.head == q.tail)) [
    | inl empty ↦ rw empty (stays i dequeue_test (idle (dequeued none)) tt refl is)
    | inr filled ↦ rw filled (
        stays i dequeue_test dequeue_look (z, ground (arith, filled, shape.bottom, shape.order))
          refl is)
  ]
  move-Moved c i dequeue_look (z, some_in) is fits = elim (Bool-cases (q.ready (q.tail % size))) [
    | inl set ↦ rw set (stays i dequeue_look dequeue_read (z, some_in, set) refl is)
    | inr unset ↦ rw unset (stays i dequeue_look (idle (dequeued none)) tt refl is)
  ]
  move-Moved c i dequeue_read (z, some_in, set) is fits =
      stays i dequeue_read (dequeue_clear (q.value (q.tail % size)))
        (z, some_in, set, shape.values q.tail (omega (arith, is z)) some_in set) refl is
  move-Moved c i (dequeue_clear v) (z, some_in, set, e) is fits =
      subst
        (λ k.
          Leaves k (dequeue_clear v) (sole_move size blank c k q (dequeue_clear v)).0
            (dequeue_move v))
        (sym z) (low + 1, clear-Moved size q low shape v (omega (arith, is z)) some_in set e)
  move-Moved c i (dequeue_move v) (z, some_in, clear, e) is fits =
      subst
        (λ k.
          Leaves k (dequeue_move v) (sole_move size blank c k q (dequeue_move v)).0
            (idle (dequeued (some v))))
        (sym z)
        (rw (mod-eq_of_lt {n = q.tail + 1} {m = 2 ^ 64} (omega (arith, bound, some_in)))
          (low, step-Moved size q low shape v (omega (arith, is z)) some_in clear))
