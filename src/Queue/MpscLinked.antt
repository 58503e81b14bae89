-- ===== src/Queue/MpscLinked.antt =====
-- `mpsc_queue` of lib/hope_thread/containers/queue/mpsc_queue.h with `new_only`: a chain of nodes in the
-- heap, to which producers add by an exchange of the head, and from which one consumer takes.
pub mod Invariant
mod Linking
pub mod Taking
pub mod Keeps
pub mod Safety
pub mod Freed
mod Tests
use hope_threading.Prelude.{ℕ, ◌+◌, Bool, true, false, Option, none, some, List, [], ◌∷◌, ◌++◌}
use hope_threading.Threads.{update}
use hope_threading.Queue.Destroy.{Deleted, delete_all}

-- The nodes by their number, with `live` for those that are allocated, and `m_head` and `m_tail`. A node
-- is numbered by the exchange that publishes it, one more than the node that it follows; until then only
-- its thread knows it, and `built` says which threads have allocated a node that is not published.
-- `entered` and `linker` are no part of the code: the items in the order of the exchanges, and by whom
-- each node was followed.
pub record Queue (A : Type 0) : Type 0 where
  pub value : ℕ → A
  pub next : ℕ → Option ℕ
  pub live : ℕ → Bool
  pub built : ℕ → Bool
  pub head : ℕ
  pub tail : ℕ
  pub entered : List A
  pub linker : ℕ → ℕ

-- What a thread's last call has returned.
pub data Result (A : Type 0) : Type 0 where
  nothing : Result A
  dequeued : Option A → Result A

-- Where a thread stands: in `enqueue` at `new node`, at the exchange, or at the store of `next` into the old head; in
-- `try_dequeue` at the load of `next`, at the read of the value, at the store of the tail and of the
-- empty value, and at the `delete` of the old tail.
pub data Place (A : Type 0) : Type 0 where
  idle : Result A → Place A
  enqueue_new : A → Place A
  enqueue_exchange : A → Place A
  enqueue_link : ℕ → ℕ → Place A
  dequeue_load : Place A
  dequeue_read : ℕ → Place A
  dequeue_move : ℕ → A → Place A
  dequeue_delete : ℕ → A → Place A

pub data Call (A : Type 0) : Type 0 where
  enqueue : A → Call A
  try_dequeue : Call A

module _ {A : Type 0} where
  enter : Call A → Place A
  enter (enqueue v) = enqueue_new v
  enter try_dequeue = dequeue_load

  -- The constructor, with its first node.
  unfoldable pub new : A → Queue A
  new blank = record {
    value = λ _. blank;
    next = λ _. none;
    live = update (λ _. false) 0 true;
    built = λ _. false;
    head = 0;
    tail = 0;
    entered = [];
    linker = λ _. 0;
  }

  unfoldable pub publish : ℕ → A → Queue A → Queue A × Place A
  publish i v q =
      let node = q.head + 1 in
      (
        record q {
          value = update q.value node v;
          next = update q.next node none;
          live = update q.live node (q.built i);
          built = update q.built i false;
          head = node;
          entered = q.entered ++ v ∷ [];
          linker = update q.linker q.head i;
        },
        enqueue_link q.head node,
      )

  unfoldable pub popped : Option ℕ → Place A
  popped none = idle (dequeued none)
  popped (some p) = dequeue_read p

  -- `blank` is a default value.
  unfoldable pub move : A → Call A → ℕ → Queue A → Place A → Queue A × Place A
  unfolding enter publish popped
  move blank c i q (idle r) = (q, enter c)
  move blank c i q (enqueue_new v) =
      (record q { built = update q.built i true }, enqueue_exchange v)
  move blank c i q (enqueue_exchange v) = publish i v q
  move blank c i q (enqueue_link old node) =
      (record q { next = update q.next old (some node) }, idle nothing)
  move blank c i q dequeue_load = (q, popped (q.next q.tail))
  move blank c i q (dequeue_read p) = (q, dequeue_move p (q.value p))
  move blank c i q (dequeue_move p v) =
      (record q { tail = p; value = update q.value p blank }, dequeue_delete q.tail v)
  move blank c i q (dequeue_delete old v) =
      (record q { live = update q.live old false }, idle (dequeued (some v)))

  -- The destructor, with so many rounds of its loop.
  unfoldable pub destroy : ℕ → Queue A → Deleted
  destroy rounds q = delete_all rounds q.next q.live (some q.tail)
