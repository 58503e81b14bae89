-- ===== src/Queue/MpscBuffered/Reuse.antt =====
-- A buffered `mpsc_queue` whose calls do not overlap is a queue, and uses its nodes again.
use hope_threading.Prelude.{
  ℕ, ◌+◌, ◌≡◌, refl, Option, none, some, List, [], ◌∷◌, ◌++◌, length, arith, subst,
}
use hope_threading.Queue.MpscBuffered.{
  Queue, Call, enqueue_call, dequeue_call, new, entered, called, after_calls,
}
use hope_threading.Queue.MpscBuffered.Held.{
  larger, Holds, new-Holds, enqueue-Holds, dequeue_empty, dequeue_first,
}

-- A queue of items without nodes: what the calls have returned, and one more than the most items that
-- it has held at a time.
pub record Items (A : Type 0) : Type 0 where
  pub items : List A
  pub results : List (Option A)
  pub nodes : ℕ

module _ {A : Type 0} where
  abbrev taken : Items A → List A → Items A
  taken m [] = record m { results = m.results ++ none ∷ [] }
  taken m (x ∷ rest) = record m { items = rest; results = m.results ++ some x ∷ [] }

  abbrev stepped : Call A → Items A → Items A
  stepped (enqueue_call v) m = record m {
    items = m.items ++ v ∷ [];
    nodes = larger m.nodes (length m.items + 2);
  }
  stepped dequeue_call m = taken m m.items

  abbrev pub items_after : List (Call A) → Items A
  items_after [] = record { items = []; results = []; nodes = 1 }
  items_after (c ∷ before) = stepped c (items_after before)

  -- The calls, one after another.
  record Run (blank : A) (calls : List (Call A)) : Type 0 where
    pub queue : Queue A
    pub leaves : after_calls blank calls ≡ some (queue, (items_after calls).results)
    pub holds : Holds queue (items_after calls).items
    pub nodes_are : queue.allocated ≡ (items_after calls).nodes

  take-Run :
      (blank : A) (before : List (Call A)) (items : List A)
      → (items_after before).items ≡ items
      → Run blank before
      → Run blank (dequeue_call ∷ before)
  unfolding after_calls called
  take-Run blank before [] e r = record {
    queue = r.queue;
    leaves =
        rw (r.leaves, dequeue_empty r.queue (items_after before).items r.holds blank e, e) refl;
    holds = rw e (subst (Holds r.queue) e r.holds);
    nodes_are = rw e r.nodes_are;
  }
  take-Run blank before (x ∷ rest) e r =
      let (q', taken_is, holds, same) =
        dequeue_first r.queue (items_after before).items r.holds blank x rest e in
      record {
        queue = q';
        leaves = rw (r.leaves, taken_is, e) refl;
        holds = rw e holds;
        nodes_are = rw e (omega (arith, same, r.nodes_are));
      }

  run-Run : (blank : A) (calls : List (Call A)) → Run blank calls
  unfolding after_calls called entered new
  run-Run blank [] = record {
    queue = new blank;
    leaves = refl;
    holds = new-Holds blank;
    nodes_are = refl;
  }
  run-Run blank (dequeue_call ∷ before) =
      take-Run blank before (items_after before).items refl (run-Run blank before)
  run-Run blank (enqueue_call v ∷ before) =
      let r = run-Run blank before in
      let (q', entered_is, holds, nodes) =
        enqueue-Holds r.queue (items_after before).items r.holds v in
      record {
        queue = q';
        leaves = rw (r.leaves, entered_is) refl;
        holds = holds;
        nodes_are = rw (nodes, r.nodes_are) refl;
      }

  -- A buffered queue is a queue and uses its nodes again: whatever calls are made, one after another, none
  -- reads through a null pointer, they return what the calls of a list of items return, which are
  -- taken in the order in which they were entered, and the nodes that have been allocated are one more
  -- than the most items that were in the queue at a time.
  pub reuses_nodes :
      (blank : A) (calls : List (Call A))
      → (q : Queue A) × (after_calls blank calls ≡ some (q, (items_after calls).results))
        × (q.allocated ≡ (items_after calls).nodes)
  reuses_nodes blank calls = let r = run-Run blank calls in (r.queue, r.leaves, r.nodes_are)
