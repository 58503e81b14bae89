-- ===== src/Runtime/Worker/Taken.antt =====
-- What each move on the queue of an `async_worker` leaves of its chain and of what has been taken out.
use hope_threading.Prelude.{
  ℕ, zero, suc, ◌≤◌, ◌<◌, ◌≡◌, refl, sym, ap, ◌∙◌, subst, Bool, true, false, Option, none, some,
  List, [], ◌∷◌, ◌++◌, ℕ_discrete, length, get_elem?, take, ite, append-nil, arith,
}
use hope_threading.Threads.{update}
use hope_threading.Queue.MpscLinked as MpscLinked
use hope_threading.Queue.MpscLinked.Invariant as Chain
use hope_threading.Queue.MpscLinked.Taking.{local-Inv}
use hope_threading.Runtime.Worker.{
  arrived_add, arrived_drain, Worker, Place, look, add_enqueue, drain, call_payload, clear, wait,
  asleep, returned,
}

-- One more element of a list.
take-suc :
    {A : Type 0} (k : ℕ) (l : List A) (v : A)
    → get_elem? l k ≡ some v
    → take (suc k) l ≡ take k l ++ v ∷ []
take-suc zero [] v e = absurd (ground (arith, e))
take-suc zero (x ∷ l) v e = ground (arith, e)
take-suc (suc k) [] v e = absurd (ground (arith, e))
take-suc (suc k) (x ∷ l) v e = ap (λ t. x ∷ t) (take-suc k l v e)

take-append_left : {A : Type 0} (k : ℕ) (l m : List A) → k ≤ length l → take k (l ++ m) ≡ take k l
take-append_left zero l m le = refl
take-append_left (suc k) [] m le = absurd (omega (arith, le))
take-append_left (suc k) (x ∷ l) m le = ap (λ t. x ∷ t) (take-append_left k l m (omega (arith, le)))

module _ {A : Type 0} where
  -- What the worker has taken out of the queue and not yet worked on.
  abbrev pub in_hand : Place A → List A
  in_hand (call_payload v) = v ∷ []
  in_hand (drain (MpscLinked.dequeue_delete old v)) = v ∷ []
  in_hand _ = []

  -- Whether a place is one of `run`.
  abbrev pub runs : Place A → Bool
  runs look = true
  runs (drain p) = true
  runs (call_payload v) = true
  runs clear = true
  runs wait = true
  runs asleep = true
  runs returned = true
  runs _ = false

  -- Where a thread stands in the queue.
  abbrev pub view : Place A → MpscLinked.Place A
  view (add_enqueue p) = p
  view (drain p) = p
  view _ = MpscLinked.idle MpscLinked.nothing

  pub record Inv (n : ℕ) (m : Worker A) (pc : ℕ → Place A) : Type 0 where
    pub chain : Chain.Inv n m.queued_work (λ j. view (pc j))
    pub worker : runs (pc 0) ≡ true
    pub clients : (j : ℕ) → 0 < j → runs (pc j) ≡ false
    pub order : m.done ++ in_hand (pc 0) ≡ take m.queued_work.tail m.queued_work.entered

  module _ (blank : A) (n : ℕ) where
    -- A thread of the queue stands elsewhere in the same places.
    pub Chain-same :
        (q : MpscLinked.Queue A) (pc pc' : ℕ → MpscLinked.Place A)
        → ((j : ℕ) → pc j ≡ pc' j)
        → Chain.Inv n q pc
        → Chain.Inv n q pc'
    Chain-same q pc pc' h inv = subst (Chain.Inv n q) (λ k j. h j k) inv

    pub view-update :
        (pc : ℕ → Place A) (i : ℕ) (p : Place A) (j : ℕ)
        → update (λ j. view (pc j)) i (view p) j ≡ view (update pc i p j)
    view-update pc i p j =
        elim (ℕ_discrete i j) as (λ d. ite d (view p) (view (pc j)) ≡ view (ite d p (pc j))) [
          | yes same ↦ refl
          | no ne ↦ refl
        ]

    -- A move that is none of the queue's.
    pub Chain-stays :
        (i : ℕ) (q : MpscLinked.Queue A) (pc : ℕ → Place A) (p' : Place A)
        → view (pc i) ≡ MpscLinked.idle MpscLinked.nothing
        → view p' ≡ MpscLinked.idle MpscLinked.nothing
        → Chain.Inv n q (λ j. view (pc j))
        → Chain.Inv n q (λ j. view (update pc i p' j))
    Chain-stays i q pc p' e e' inv =
        Chain-same q (λ j. view (pc j)) (λ j. view (update pc i p' j))
          (λ j. elim (ℕ_discrete i j) as (λ d. view (pc j) ≡ view (ite d p' (pc j))) [
            | yes same ↦ subst (λ k. view (pc k) ≡ view p') same (e ∙ sym e')
            | no ne ↦ refl
          ])
          inv

    -- A call of the queue that begins.
    pub Chain-begins :
        (i : ℕ) (q : MpscLinked.Queue A) (pc : ℕ → Place A) (p' : Place A)
        → view (pc i) ≡ MpscLinked.idle MpscLinked.nothing
        → Chain.At q i (view p')
        → Chain.leftover (view p') ≡ none
        → Chain.Inv n q (λ j. view (pc j))
        → Chain.Inv n q (λ j. view (update pc i p' j))
    Chain-begins i q pc p' e says none_left inv =
        Chain-same q (update (λ j. view (pc j)) i (view p')) (λ j. view (update pc i p' j))
          (view-update pc i p')
          (local-Inv blank n MpscLinked.try_dequeue i q (λ j. view (pc j)) (view p') says
            (ground (arith, e)) none_left (λ a b. ground (arith, e)) (λ v. ground (arith, e)) inv)

    -- A call of the queue that is over.
    Chain-ends :
        (i : ℕ) (q : MpscLinked.Queue A) (pc : ℕ → MpscLinked.Place A) (r : MpscLinked.Result A)
        → Chain.Inv n q (update pc i (MpscLinked.idle r))
        → Chain.Inv n q (update pc i (MpscLinked.idle MpscLinked.nothing))
    Chain-ends i q pc r inv =
        Chain-same q
          (update (update pc i (MpscLinked.idle r)) i (MpscLinked.idle MpscLinked.nothing))
          (update pc i (MpscLinked.idle MpscLinked.nothing)) (λ j. ground arith)
          (local-Inv blank n MpscLinked.try_dequeue i q (update pc i (MpscLinked.idle r))
            (MpscLinked.idle MpscLinked.nothing) tt (ground arith) refl (λ a b. ground arith)
            (λ v. ground arith) inv)

    pub arrived_add-Chain :
        (i : ℕ) (q : MpscLinked.Queue A) (pc : ℕ → MpscLinked.Place A) (p : MpscLinked.Place A)
        → Chain.Inv n q (update pc i p)
        → Chain.Inv n q (update pc i (view (arrived_add p)))
    unfolding arrived_add
    arrived_add-Chain i q pc (MpscLinked.idle r) inv = Chain-ends i q pc r inv
    arrived_add-Chain i q pc (MpscLinked.enqueue_new v) inv = inv
    arrived_add-Chain i q pc (MpscLinked.enqueue_exchange v) inv = inv
    arrived_add-Chain i q pc (MpscLinked.enqueue_link a b) inv = inv
    arrived_add-Chain i q pc MpscLinked.dequeue_load inv = inv
    arrived_add-Chain i q pc (MpscLinked.dequeue_read k) inv = inv
    arrived_add-Chain i q pc (MpscLinked.dequeue_move k v) inv = inv
    arrived_add-Chain i q pc (MpscLinked.dequeue_delete k v) inv = inv

    pub arrived_drain-Chain :
        (i : ℕ) (q : MpscLinked.Queue A) (pc : ℕ → MpscLinked.Place A) (p : MpscLinked.Place A)
        → Chain.Inv n q (update pc i p)
        → Chain.Inv n q (update pc i (view (arrived_drain p)))
    unfolding arrived_drain
    arrived_drain-Chain i q pc (MpscLinked.idle MpscLinked.nothing) inv =
        Chain-ends i q pc MpscLinked.nothing inv
    arrived_drain-Chain i q pc (MpscLinked.idle (MpscLinked.dequeued none)) inv =
        Chain-ends i q pc (MpscLinked.dequeued none) inv
    arrived_drain-Chain i q pc (MpscLinked.idle (MpscLinked.dequeued (some v))) inv =
        Chain-ends i q pc (MpscLinked.dequeued (some v)) inv
    arrived_drain-Chain i q pc (MpscLinked.enqueue_new v) inv = inv
    arrived_drain-Chain i q pc (MpscLinked.enqueue_exchange v) inv = inv
    arrived_drain-Chain i q pc (MpscLinked.enqueue_link a b) inv = inv
    arrived_drain-Chain i q pc MpscLinked.dequeue_load inv = inv
    arrived_drain-Chain i q pc (MpscLinked.dequeue_read k) inv = inv
    arrived_drain-Chain i q pc (MpscLinked.dequeue_move k v) inv = inv
    arrived_drain-Chain i q pc (MpscLinked.dequeue_delete k v) inv = inv

    -- A move of a producer leaves what has been taken.
    pub producer-order :
        (i : ℕ) (q : MpscLinked.Queue A) (pc : ℕ → MpscLinked.Place A) (p : MpscLinked.Place A)
        → 0 < i
        → Chain.At q i p
        → Chain.Inv n q pc
        → let q' = (MpscLinked.move blank (MpscLinked.enqueue blank) i q p).0 in
          take q'.tail q'.entered ≡ take q.tail q.entered
    unfolding MpscLinked.move
    producer-order i q pc (MpscLinked.idle r) pos at inv = refl
    producer-order i q pc (MpscLinked.enqueue_new v) pos at inv = refl
    producer-order i q pc (MpscLinked.enqueue_exchange v) pos at inv =
        take-append_left q.tail q.entered (v ∷ []) (omega (arith, inv.order, inv.counted))
    producer-order i q pc (MpscLinked.enqueue_link a b) pos at inv = refl
    producer-order i q pc MpscLinked.dequeue_load pos at inv = refl
    producer-order i q pc (MpscLinked.dequeue_read k) pos at inv = refl
    producer-order i q pc (MpscLinked.dequeue_move k v) pos at inv =
        absurd (omega (arith, pos, at.0))
    producer-order i q pc (MpscLinked.dequeue_delete k v) pos at inv = refl

    drained :
        (o : Option ℕ)
        → (runs (arrived_drain (MpscLinked.popped {A = A} o)) ≡ true)
          × (in_hand (arrived_drain (MpscLinked.popped {A = A} o)) ≡ [])
    unfolding MpscLinked.popped arrived_drain
    drained none = (refl, refl)
    drained (some k) = (refl, refl)

    -- A move of the consumer, which takes at the store of the tail.
    pub consumer-order :
        (q : MpscLinked.Queue A) (pc : ℕ → MpscLinked.Place A) (p : MpscLinked.Place A)
        (done : List A)
        → Chain.At q 0 p
        → Chain.Inv n q pc
        → done ++ in_hand (drain p) ≡ take q.tail q.entered
        → let t = MpscLinked.move blank MpscLinked.try_dequeue 0 q p in
          (runs (arrived_drain t.1) ≡ true)
          × (done ++ in_hand (arrived_drain t.1) ≡ take t.0.tail t.0.entered)
    unfolding MpscLinked.move arrived_drain
    consumer-order q pc (MpscLinked.idle r) done at inv h = (refl, h)
    consumer-order q pc (MpscLinked.enqueue_new v) done at inv h = absurd (omega (arith, at))
    consumer-order q pc (MpscLinked.enqueue_exchange v) done at inv h = absurd (omega (arith, at.0))
    consumer-order q pc (MpscLinked.enqueue_link a b) done at inv h = absurd (omega (arith, at.0))
    consumer-order q pc MpscLinked.dequeue_load done at inv h =
        let taken = drained (q.next q.tail) in (taken.0, rw taken.1 h)
    consumer-order q pc (MpscLinked.dequeue_read k) done at inv h = (refl, h)
    consumer-order q pc (MpscLinked.dequeue_move k v) done (z, e, here) inv h = (
      refl,
      subst (λ t. done ++ v ∷ [] ≡ take t q.entered) (sym step)
          (ap (λ l. l ++ v ∷ []) (sym (append-nil done) ∙ h)
            ∙ sym (take-suc q.tail q.entered v here)),
    )
      where
        below : q.tail < q.head
        below = ground (arith, inv.unlinked q.tail, inv.order, e)

        step : k ≡ suc q.tail
        step = ground (arith, inv.linked q.tail, below, e)
    consumer-order q pc (MpscLinked.dequeue_delete k v) done at inv h = (refl, h)

    pub arrived_add-runs : (p : MpscLinked.Place A) → runs (arrived_add p) ≡ false
    unfolding arrived_add
    arrived_add-runs (MpscLinked.idle r) = refl
    arrived_add-runs p = refl
