-- ===== src/Runtime/Worker/Moves.antt =====
-- What a move of `async_worker` keeps, one lemma for each kind: on the queue, or beside it.
use hope_threading.Prelude.{
  ℕ, suc, ◌<◌, ◌≡◌, refl, sym, ap, ◌∙◌, ◌⊎◌, subst, true, false, ◌++◌, inl, inr, take, arith,
}
use hope_threading.Threads.{update}
use hope_threading.Queue.MpscLinked as MpscLinked
use hope_threading.Queue.MpscLinked.Invariant as Chain
use hope_threading.Queue.MpscLinked.Keeps as Keeps
use hope_threading.Runtime.Worker.{
  arrived_add, arrived_drain, Worker, Place, Call, move, add_enqueue, drain,
}
use hope_threading.Runtime.Worker.Taken.{
  in_hand, runs, view, Inv, Chain-same, view-update, Chain-stays, Chain-begins, arrived_add-Chain,
  arrived_drain-Chain, producer-order, consumer-order, arrived_add-runs,
}

module _ {A : Type 0} (blank : A) (n : ℕ) where
  -- The place of the worker, after its move and after that of a client.
  self : (pc : ℕ → Place A) (p : Place A) → update pc 0 p 0 ≡ p
  self pc p = ground arith

  other : (pc : ℕ → Place A) (i : ℕ) (p : Place A) → update pc (suc i) p 0 ≡ pc 0
  other pc i p = ground arith

  module _ (c : Call A) (m : Worker A) (pc : ℕ → Place A) (v : Inv n m pc) where
    module _ (i : ℕ) (p : MpscLinked.Place A) (lt : i < n) where
      abbrev drained_queue : MpscLinked.Queue A
      drained_queue = (MpscLinked.move blank MpscLinked.try_dequeue i m.queued_work p).0

      abbrev drained_place : MpscLinked.Place A
      drained_place = (MpscLinked.move blank MpscLinked.try_dequeue i m.queued_work p).1

      abbrev added_queue : MpscLinked.Queue A
      added_queue = (MpscLinked.move blank (MpscLinked.enqueue blank) i m.queued_work p).0

      abbrev added_place : MpscLinked.Place A
      added_place = (MpscLinked.move blank (MpscLinked.enqueue blank) i m.queued_work p).1

    -- A move of the worker within the queue.
    pub drain-Inv :
        (p : MpscLinked.Place A)
        → 0 < n
        → pc 0 ≡ drain p
        → Inv n (move blank c 0 m (drain p)).0 (update pc 0 (move blank c 0 m (drain p)).1)
    unfolding move
    drain-Inv p lt at = record {
      chain =
          Chain-same blank n (drained_queue 0 p lt)
            (update (λ j. view (pc j)) 0 (view (arrived_drain (drained_place 0 p lt))))
            (λ j. view (update pc 0 (arrived_drain (drained_place 0 p lt)) j))
            (view-update blank n pc 0 (arrived_drain (drained_place 0 p lt)))
            (arrived_drain-Chain blank n 0 (drained_queue 0 p lt) (λ j. view (pc j))
              (drained_place 0 p lt)
              (Keeps.move-Inv blank n 0 MpscLinked.try_dequeue m.queued_work (λ j. view (pc j)) p
                (ap view at) lt v.chain says));
      worker = ground (arith, kept.0);
      clients = λ j pos. ground (arith, v.clients j pos);
      order =
          ap (λ x. m.done ++ in_hand x) (self pc (arrived_drain (drained_place 0 p lt))) ∙ kept.1;
    }
      where
        says : Chain.At m.queued_work 0 p
        says = subst (λ x. Chain.At m.queued_work 0 (view x)) at (v.chain.places 0 lt)

        kept :
            (runs (arrived_drain (drained_place 0 p lt)) ≡ true)
            × (m.done ++ in_hand (arrived_drain (drained_place 0 p lt))
                ≡ take (drained_queue 0 p lt).tail (drained_queue 0 p lt).entered)
        kept =
            consumer-order blank n m.queued_work (λ j. view (pc j)) p m.done says v.chain
              (subst (λ x. m.done ++ in_hand x ≡ take m.queued_work.tail m.queued_work.entered) at
                v.order)

    -- A move of a client within the queue.
    pub add-Inv :
        (i : ℕ) (p : MpscLinked.Place A)
        → suc i < n
        → pc (suc i) ≡ add_enqueue p
        → Inv n
            (move blank c (suc i) m (add_enqueue p)).0
            (update pc (suc i) (move blank c (suc i) m (add_enqueue p)).1)
    unfolding move
    add-Inv i p lt at = record {
      chain =
          Chain-same blank n (added_queue (suc i) p lt)
            (update (λ j. view (pc j)) (suc i) (view (arrived_add (added_place (suc i) p lt))))
            (λ j. view (update pc (suc i) (arrived_add (added_place (suc i) p lt)) j))
            (view-update blank n pc (suc i) (arrived_add (added_place (suc i) p lt)))
            (arrived_add-Chain blank n (suc i) (added_queue (suc i) p lt) (λ j. view (pc j))
              (added_place (suc i) p lt)
              (Keeps.move-Inv blank n (suc i) (MpscLinked.enqueue blank) m.queued_work
                (λ j. view (pc j)) p (ap view at) lt v.chain says));
      worker = ap runs (other pc i (arrived_add (added_place (suc i) p lt))) ∙ v.worker;
      clients = λ j pos.
          ground (arith, v.clients j pos, arrived_add-runs blank n (added_place (suc i) p lt));
      order =
          ap (λ x. m.done ++ in_hand x) (other pc i (arrived_add (added_place (suc i) p lt)))
          ∙ v.order
          ∙ sym (
              producer-order blank n (suc i) m.queued_work (λ j. view (pc j)) p (omega arith) says
                v.chain);
    }
      where
        says : Chain.At m.queued_work (suc i) p
        says = subst (λ x. Chain.At m.queued_work (suc i) (view x)) at (v.chain.places (suc i) lt)

    -- A move of the worker that leaves the queue.
    pub run-Inv :
        (m' : Worker A) (p' : Place A)
        → view (pc 0) ≡ MpscLinked.idle MpscLinked.nothing
        → (view p' ≡ MpscLinked.idle MpscLinked.nothing) ⊎ (view p' ≡ MpscLinked.dequeue_load)
        → m'.queued_work ≡ m.queued_work
        → runs p' ≡ true
        → m'.done ++ in_hand p' ≡ m.done ++ in_hand (pc 0)
        → Inv n m' (update pc 0 p')
    run-Inv m' p' e to same is h = record {
      chain =
          subst (λ q. Chain.Inv n q (λ j. view (update pc 0 p' j))) (sym same)
            (elim to [
              | inl stays ↦ Chain-stays blank n 0 m.queued_work pc p' e stays v.chain
              | inr begins ↦
                  Chain-begins blank n 0 m.queued_work pc p' e
                    (subst (Chain.At m.queued_work 0) (sym begins) refl) (ap Chain.leftover begins)
                    v.chain
            ]);
      worker = ground (arith, is);
      clients = λ j pos. ground (arith, v.clients j pos);
      order =
          ap (λ x. m'.done ++ in_hand x) (self pc p')
          ∙ h
          ∙ subst (λ q. m.done ++ in_hand (pc 0) ≡ take q.tail q.entered) (sym same) v.order;
    }

    -- A move of a client that leaves the queue.
    pub call-Inv :
        (i : ℕ) (m' : Worker A) (p' : Place A)
        → view (pc (suc i)) ≡ MpscLinked.idle MpscLinked.nothing
        → (view p' ≡ MpscLinked.idle MpscLinked.nothing)
          ⊎ ((w : A) × (view p' ≡ MpscLinked.enqueue_new w))
        → m'.queued_work ≡ m.queued_work
        → m'.done ≡ m.done
        → runs p' ≡ false
        → Inv n m' (update pc (suc i) p')
    call-Inv i m' p' e to same is_done is = record {
      chain =
          subst (λ q. Chain.Inv n q (λ j. view (update pc (suc i) p' j))) (sym same)
            (elim to [
              | inl stays ↦ Chain-stays blank n (suc i) m.queued_work pc p' e stays v.chain
              | inr (w, begins) ↦
                  Chain-begins blank n (suc i) m.queued_work pc p' e
                    (subst (Chain.At m.queued_work (suc i)) (sym begins) (omega arith))
                    (ap Chain.leftover begins) v.chain
            ]);
      worker = ap runs (other pc i p') ∙ v.worker;
      clients = λ j pos. ground (arith, v.clients j pos, is);
      order =
          ap (λ x. m'.done ++ in_hand x) (other pc i p')
          ∙ ap (λ d. d ++ in_hand (pc 0)) is_done
          ∙ subst (λ q. m.done ++ in_hand (pc 0) ≡ take q.tail q.entered) (sym same) v.order;
    }
