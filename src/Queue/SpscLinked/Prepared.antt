-- ===== src/Queue/SpscLinked/Prepared.antt =====
-- What the constructor of `spsc_queue` leaves that has allocated nodes in advance.
use hope_threading.Prelude.{
  ℕ, zero, suc, ◌+◌, ◌<◌, ◌≡◌, refl, sym, ap, ◌∙◌, subst, some, arith, ℕ_discrete, ==_iff,
  if◌then◌else◌,
}
use hope_threading.Threads.{System, Reach, turn, pick, start, later}
use hope_threading.Queue.SpscLinked.{
  Queue, Place, Call, Result, move, enter, new, idle, nothing, dequeued, enqueue, try_dequeue,
  alloc_test, make_new, link, tested, read_value, store_tail, alloc_load, alloc_cached, alloc_new,
  dequeue_load, alone, enqueue_times, dequeue_times, constructed,
}
use hope_threading.Queue.SpscLinked.Invariant.{two_sided_move, Chain, Inv}
use hope_threading.Queue.SpscLinked.Reached.{initial, Reach-Inv, tail-next}

module _ {A : Type 0} (dummy : A) where
  -- A reachable state with the queue, the producer and the consumer so.
  record Stands (q : Queue A) (producer consumer : Place A) : Type 0 where
    pub state : System (Queue A) (Place A)
    pub reach : Reach (two_sided_move dummy) 2 (initial dummy) state
    pub queue_is : state.mem ≡ q
    pub producer_is : state.pc 1 ≡ producer
    pub consumer_is : state.pc 0 ≡ consumer

  produced :
      (c : Call A) (q : Queue A) (p p' : Place A)
      → Stands q p p'
      → Stands (two_sided_move dummy c 1 q p).0 (two_sided_move dummy c 1 q p).1 p'
  unfolding ℕ_discrete
  produced c q p p' s = record {
    state = turn (two_sided_move dummy) 1 c s.state;
    reach = later s.reach (pick 1 c (omega arith));
    queue_is = λ k. (two_sided_move dummy c 1 (s.queue_is k) (s.producer_is k)).0;
    producer_is = λ k. (two_sided_move dummy c 1 (s.queue_is k) (s.producer_is k)).1;
    consumer_is = s.consumer_is;
  }

  consumed :
      (c : Call A) (q : Queue A) (p p' : Place A)
      → Stands q p p'
      → Stands (two_sided_move dummy c 0 q p').0 p (two_sided_move dummy c 0 q p').1
  unfolding ℕ_discrete
  consumed c q p p' s = record {
    state = turn (two_sided_move dummy) 0 c s.state;
    reach = later s.reach (pick 0 c (omega arith));
    queue_is = λ k. (two_sided_move dummy c 0 (s.queue_is k) (s.consumer_is k)).0;
    producer_is = s.producer_is;
    consumer_is = λ k. (two_sided_move dummy c 0 (s.queue_is k) (s.consumer_is k)).1;
  }

  stands-Inv : (q : Queue A) (p p' : Place A) → Stands q p p' → Inv q p p'
  stands-Inv q p p' s =
      subst (λ x. Inv x p p') s.queue_is
        (subst (λ x. Inv s.state.mem x p') s.producer_is
          (subst (λ x. Inv s.state.mem (s.state.pc 1) x) s.consumer_is (Reach-Inv dummy s.reach)))

  produced_alone :
      (k : ℕ) (q : Queue A) (p p' : Place A)
      → Stands q p p'
      → Stands (alone k q p).0 (alone k q p).1 p'
  unfolding alone move
  produced_alone zero q p p' s = s
  produced_alone (suc k) q (idle r) p' s = s
  produced_alone (suc k) q p p' s =
      produced_alone k (move try_dequeue 0 q p).0 (move try_dequeue 0 q p).1 p'
        (produced try_dequeue q p p' s)

  consumed_alone :
      (k : ℕ) (q : Queue A) (p p' : Place A)
      → Stands q p p'
      → Stands (alone k q p').0 p (alone k q p').1
  unfolding alone move
  consumed_alone zero q p p' s = s
  consumed_alone (suc k) q p (idle r) s = s
  consumed_alone (suc k) q p p' s =
      consumed_alone k (move try_dequeue 0 q p').0 p (move try_dequeue 0 q p').1
        (consumed try_dequeue q p p' s)

  -- After `n` calls of `enqueue` and none of `try_dequeue` on a new queue.
  record Added (n : ℕ) (q : Queue A) : Type 0 where
    pub copied : q.first ≡ q.tail_copy
    pub untaken : q.first ≡ q.tail
    pub positions : (q.first_pos ≡ 0) × (q.tail_pos ≡ 0) × (q.head_pos ≡ n)
    pub nodes : q.fresh ≡ n + 1

  add_alone :
      (q : Queue A)
      → q.first ≡ q.tail_copy
      → q.first ≡ q.tail
      → alone 5 q (alloc_test dummy)
        ≡ link q.fresh dummy
            (make_new dummy (record q { tail_copy = q.tail; copy_pos = q.tail_pos })).0
  unfolding alone move make_new link
  add_alone q copied untaken =
      ap (λ b. alone 4 q (if b then alloc_load dummy else alloc_cached dummy))
        ((==_iff q.first q.tail_copy).1 copied)
      ∙ ap
          (λ b.
            alone 2 (record q { tail_copy = q.tail; copy_pos = q.tail_pos })
              (if b then alloc_new dummy else alloc_cached dummy))
          ((==_iff q.first q.tail).1 untaken)

  enqueue_times-Stands :
      (left n : ℕ) (q : Queue A)
      → Added n q
      → Stands q (idle nothing) (idle nothing)
      → Added (n + left) (enqueue_times dummy left q)
        × Stands (enqueue_times dummy left q) (idle nothing) (idle nothing)
  unfolding enqueue_times move enter link make_new
  enqueue_times-Stands zero n q added s = (subst (λ k. Added k q) {x = n} (omega arith) added, s)
  enqueue_times-Stands (suc left) n q added s =
      subst
        (λ k.
          Added k (enqueue_times dummy left (alone 5 q (alloc_test dummy)).0)
          × Stands (enqueue_times dummy left (alone 5 q (alloc_test dummy)).0) (idle nothing)
              (idle nothing))
        {x = n + 1 + left} (omega arith)
        (enqueue_times-Stands left (n + 1) (alone 5 q (alloc_test dummy)).0
          (subst (λ x. Added (n + 1) x.0) (sym (add_alone q added.copied added.untaken))
            (record {
              copied = added.untaken;
              untaken = added.untaken;
              positions = omega (arith, added.positions);
              nodes = omega (arith, added.nodes);
            }))
          (subst (λ p. Stands (alone 5 q (alloc_test dummy)).0 p (idle nothing))
            (ap (λ x. x.1) (add_alone q added.copied added.untaken))
            (produced_alone 5 q (alloc_test dummy) (idle nothing)
              (produced (enqueue dummy) q (idle nothing) (idle nothing) s))))

  take_alone :
      (q : Queue A)
      → Chain q
      → q.tail_pos < q.head_pos
      → alone 3 q dequeue_load ≡ (
        record q { tail = q.at (q.tail_pos + 1); tail_pos = q.tail_pos + 1 },
        idle (dequeued (some (q.value (q.at (q.tail_pos + 1))))),
      )
  unfolding alone move tested read_value store_tail
  take_alone q ch left =
      ap (λ o. alone 2 q (tested o)) (tail-next dummy q ch left)
      ∙ ap (λ o. alone 1 q (read_value q o)) (tail-next dummy q ch left)
      ∙ ap
          (λ o.
            let after = store_tail (q.value (q.at (q.tail_pos + 1))) q o in alone 0 after.0 after.1)
          (tail-next dummy q ch left)

  -- After `n` calls of `try_dequeue` on such a queue of `total` items.
  record Taken (n total : ℕ) (q : Queue A) : Type 0 where
    pub positions : (q.first_pos ≡ 0) × (q.tail_pos ≡ n) × (q.head_pos ≡ total)
    pub nodes : q.fresh ≡ total + 1

  -- The queue with a consumer that is in no call.
  Rests : Queue A → Type 0
  Rests q = (r : Result A) × Stands q (idle nothing) (idle r)

  dequeue_times-Rests :
      (left n total : ℕ) (q : Queue A)
      → n + left ≡ total
      → Taken n total q
      → Rests q
      → Taken total total (dequeue_times left q) × Rests (dequeue_times left q)
  unfolding dequeue_times Rests move enter
  dequeue_times-Rests zero n total q e taken s =
      (subst (λ k. Taken k total q) {x = n} (omega (arith, e)) taken, s)
  dequeue_times-Rests (suc left) n total q e taken (r, s) =
      let ch = (stands-Inv q (idle nothing) (idle r) s).chain in
      let one = take_alone q ch (omega (arith, taken.positions, e)) in
      dequeue_times-Rests left (n + 1) total (alone 3 q dequeue_load).0 (omega (arith, e))
        (subst (λ x. Taken (n + 1) total x.0) (sym one)
          (record { positions = omega (arith, taken.positions); nodes = taken.nodes }))
        (
          dequeued (some (q.value (q.at (q.tail_pos + 1)))),
          subst (Stands (alone 3 q dequeue_load).0 (idle nothing)) (ap (λ x. x.1) one) (
              consumed_alone 3 q (idle nothing) dequeue_load
                (consumed try_dequeue q (idle nothing) (idle r) s)),
        )

  -- Allocating in advance is as using the queue: for any number of nodes to allocate in advance, the
  -- constructor leaves a state that is reachable from that of the constructor without such nodes, with
  -- both threads in no call; as many items have been taken as were added, and all the nodes but the
  -- last wait to be used again.
  pub constructed-Reach :
      (pre_alloc : ℕ)
      → (s : System (Queue A) (Place A)) × Reach (two_sided_move dummy) 2 (initial dummy) s
        × (s.mem ≡ constructed dummy pre_alloc)
        × (s.pc 1 ≡ idle nothing)
        × ((r : Result A) × (s.pc 0 ≡ idle r))
        × (s.mem.first_pos ≡ 0)
        × (s.mem.tail_pos ≡ pre_alloc)
        × (s.mem.head_pos ≡ pre_alloc)
        × (s.mem.fresh ≡ pre_alloc + 1)
  unfolding constructed Rests new
  constructed-Reach pre_alloc =
      let (added, stands) =
        enqueue_times-Stands pre_alloc 0 (new dummy)
          (record { copied = refl; untaken = refl; positions = (refl, refl, refl); nodes = refl })
          (record {
            state = initial dummy;
            reach = start;
            queue_is = refl;
            producer_is = refl;
            consumer_is = refl;
          }) in
      let (taken, (r, rests)) =
        dequeue_times-Rests pre_alloc 0 pre_alloc (enqueue_times dummy pre_alloc (new dummy))
          (omega arith)
          (record {
            positions = omega (arith, added.positions);
            nodes = omega (arith, added.nodes);
          })
          (nothing, stands) in
      (
        rests.state,
        rests.reach,
        rests.queue_is,
        rests.producer_is,
        (r, rests.consumer_is),
        ap (λ q. q.first_pos) rests.queue_is ∙ taken.positions.0,
        ap (λ q. q.tail_pos) rests.queue_is ∙ taken.positions.1,
        ap (λ q. q.head_pos) rests.queue_is ∙ taken.positions.2,
        ap (λ q. q.fresh) rests.queue_is ∙ taken.nodes,
      )
