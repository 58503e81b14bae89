-- ===== src/Queue/MpscLinked/Keeps.antt =====
-- The chain in each reachable state.
use hope_threading.Prelude.{ℕ, zero, suc, ◌+◌, ◌<◌, ◌≡◌, refl, Option, none, some, arith}
use hope_threading.Threads.{update, System, Reach, Reach-keeps}
use hope_threading.Queue.MpscLinked.{
  popped, Queue, Place, Call, new, move, idle, enqueue_new, enqueue_exchange, enqueue_link,
  dequeue_load, dequeue_read, dequeue_move, dequeue_delete, nothing,
}
use hope_threading.Queue.MpscLinked.Invariant.{At, Inv, leftover, one_consumer_move}
use hope_threading.Queue.MpscLinked.Linking.{build-Inv, exchange-Inv, link-Inv}
use hope_threading.Queue.MpscLinked.Taking.{local-Inv, take-Inv, delete-Inv}

module _ {A : Type 0} (blank : A) (n : ℕ) where
  popped-At : (q : Queue A) (i : ℕ) (o : Option ℕ) → q.next q.tail ≡ o → i ≡ 0 → At q i (popped o)
  unfolding popped
  popped-At q i none e first = tt
  popped-At q i (some p) e first = (first, e)

  leftover-popped : (o : Option ℕ) → leftover {A = A} (popped o) ≡ none
  unfolding popped
  leftover-popped none = refl
  leftover-popped (some p) = refl

  -- The consumer reads the item that was entered at the tail's position.
  read-At :
      (q : Queue A) (pc : ℕ → Place A) (i p : ℕ)
      → Inv n q pc
      → At q i (dequeue_read p)
      → At q i (dequeue_move p (q.value p))
  read-At q pc i p inv says = (says.0, says.1, ground (arith, inv.values q.tail, below, step))
    where
      below : q.tail < q.head
      below = ground (arith, inv.unlinked q.tail, inv.order, says)

      step : p ≡ q.tail + 1
      step = ground (arith, inv.linked q.tail, below, says)

  pub move-Inv :
      (i : ℕ) (c : Call A) (q : Queue A) (pc : ℕ → Place A) (p : Place A)
      → pc i ≡ p
      → i < n
      → Inv n q pc
      → At q i p
      → Inv n (one_consumer_move blank c i q p).0 (update pc i (one_consumer_move blank c i q p).1)
  unfolding move
  move-Inv zero c q pc (idle r) at lt inv says =
      local-Inv blank n c 0 q pc dequeue_load refl (ground (arith, at)) refl
        (λ a b. ground (arith, at)) (λ v. ground (arith, at)) inv
  move-Inv (suc i) (Call.enqueue v) q pc (idle r) at lt inv says =
      local-Inv blank n (Call.enqueue v) (suc i) q pc (enqueue_new v) (omega arith)
        (ground (arith, at)) refl (λ a b. ground (arith, at)) (λ v. ground (arith, at)) inv
  move-Inv (suc i) Call.try_dequeue q pc (idle r) at lt inv says =
      local-Inv blank n Call.try_dequeue (suc i) q pc (enqueue_new blank) (omega arith)
        (ground (arith, at)) refl (λ a b. ground (arith, at)) (λ v. ground (arith, at)) inv
  move-Inv i c q pc (enqueue_new v) at lt inv says = build-Inv blank n i c q pc v at says inv
  move-Inv i c q pc (enqueue_exchange v) at lt inv says =
      exchange-Inv blank n i c q pc v lt at says inv
  move-Inv i c q pc (enqueue_link a b) at lt inv says = link-Inv blank n i c q pc a b lt at says inv
  move-Inv i c q pc dequeue_load at lt inv says =
      local-Inv blank n c i q pc (popped (q.next q.tail)) (popped-At q i (q.next q.tail) refl says)
        (ground (arith, at)) (leftover-popped (q.next q.tail)) (λ a b. ground (arith, at))
        (λ v. ground (arith, at)) inv
  move-Inv i c q pc (dequeue_read p) at lt inv says =
      local-Inv blank n c i q pc (dequeue_move p (q.value p)) (read-At q pc i p inv says)
        (ground (arith, at)) refl (λ a b. ground (arith, at)) (λ v. ground (arith, at)) inv
  move-Inv zero c q pc (dequeue_move p v) at lt inv says = take-Inv blank n c q pc p v at says inv
  move-Inv (suc i) c q pc (dequeue_move p v) at lt inv says = absurd (ground (arith, says))
  move-Inv zero c q pc (dequeue_delete old v) at lt inv says =
      delete-Inv blank n c q pc old v at says inv
  move-Inv (suc i) c q pc (dequeue_delete old v) at lt inv says = absurd (ground (arith, says))

  -- The queue as it is constructed, and no thread in a call.
  abbrev pub initial : System (Queue A) (Place A)
  initial = record { mem = new blank; pc = λ _. idle nothing }

  pub initial-Inv : Inv n initial.mem initial.pc
  unfolding new
  initial-Inv = record {
    order = omega arith;
    counted = refl;
    alive = λ k lo hi. ground arith;
    dead = λ k h. ground (arith, h);
    unlinked = λ k hi. refl;
    private = λ j h. absurd (ground (arith, h));
    linked = λ k lo hi. absurd (omega arith);
    values = λ k lo hi. absurd (omega arith);
    places = λ j hj. tt;
  }

  pub Reach-Inv :
      {s : System (Queue A) (Place A)}
      → Reach (one_consumer_move blank) n initial s
      → Inv n s.mem s.pc
  Reach-Inv r =
      Reach-keeps (one_consumer_move blank) n (Inv n)
        (λ i c q pc lt inv. move-Inv i c q pc (pc i) refl lt inv (inv.places i lt)) {s = initial}
        initial-Inv r
