-- ===== src/Queue/SpscLinked.antt =====
-- `spsc_queue` of lib/hope_thread/containers/queue/spsc_queue.h, with `lc` and `sr` of
-- lib/hope_thread/synchronization/lcsr.h as plain accesses: a chain of nodes of which the consumed ones
-- are used again.
mod Invariant
mod Chains
mod Adding
mod Reached
mod Covered
pub mod Safety
pub mod Freed
pub mod Prepared
mod Tests
use hope_threading.Prelude.{
  ltb, zero, suc, ℕ, ◌+◌, Option, none, some, List, [], ◌∷◌, ◌++◌, ◌==◌, if◌then◌else◌,
}
use hope_threading.Threads.{update}
use hope_threading.Queue.Destroy.{Deleted, delete_all}

-- The nodes by their address, below `fresh` once they are allocated, and `m_tail`, `m_head`, `m_first` and
-- `m_tail_copy`. `entered`, the address at each position of the chain, and the positions of the four
-- pointers are no part of the code.
pub record Queue (A : Type 0) : Type 0 where
  pub value : ℕ → A
  pub next : ℕ → Option ℕ
  pub fresh : ℕ
  pub tail : ℕ
  pub head : ℕ
  pub first : ℕ
  pub tail_copy : ℕ
  pub entered : List A
  pub at : ℕ → ℕ
  pub tail_pos : ℕ
  pub head_pos : ℕ
  pub first_pos : ℕ
  pub copy_pos : ℕ

-- What a thread's last call has returned.
pub data Result (A : Type 0) : Type 0 where
  nothing : Result A
  dequeued : Option A → Result A

-- Where a thread stands. In `enqueue`: at the first test of `alloc_node`, at the load of the tail, at the
-- second test, at `create_from_internal` or `new`, and at the link. In `try_dequeue`: at the test, at the
-- read of the value, and at the store of the tail. `null_read` is a read through a null pointer.
pub data Place (A : Type 0) : Type 0 where
  idle : Result A → Place A
  alloc_test : A → Place A
  alloc_load : A → Place A
  alloc_again : A → Place A
  alloc_cached : A → Place A
  alloc_new : A → Place A
  enqueue_link : ℕ → A → Place A
  dequeue_load : Place A
  dequeue_read : Place A
  dequeue_store : A → Place A
  null_read : Place A

pub data Call (A : Type 0) : Type 0 where
  enqueue : A → Call A
  try_dequeue : Call A

module _ {A : Type 0} where
  unfoldable pub enter : Call A → Place A
  enter (enqueue v) = alloc_test v
  enter try_dequeue = dequeue_load

  -- The constructor, before it allocates nodes in advance.
  unfoldable pub new : A → Queue A
  new blank = record {
    value = λ _. blank;
    next = λ _. none;
    fresh = 1;
    tail = 0;
    head = 0;
    first = 0;
    tail_copy = 0;
    entered = [];
    at = λ _. 0;
    tail_pos = 0;
    head_pos = 0;
    first_pos = 0;
    copy_pos = 0;
  }

  -- `create_from_internal`, and `n->next = nullptr` behind it
  unfoldable pub take_cached : A → Queue A → Option ℕ → Queue A × Place A
  take_cached v q none = (q, null_read)
  take_cached v q (some n) = (
    record q {
      first = n;
      first_pos = q.first_pos + 1;
      value = update q.value q.first v;
      next = update q.next q.first none;
    },
    enqueue_link q.first v,
  )

  -- `new node`, likewise
  unfoldable pub make_new : A → Queue A → Queue A × Place A
  make_new v q = (
    record q {
      fresh = q.fresh + 1;
      value = update q.value q.fresh v;
      next = update q.next q.fresh none;
    },
    enqueue_link q.fresh v,
  )

  -- `sr(&m_head->next, n)` and the new head
  unfoldable pub link : ℕ → A → Queue A → Queue A × Place A
  link n v q = (
    record q {
      next = update q.next q.head (some n);
      head = n;
      head_pos = q.head_pos + 1;
      at = update q.at (q.head_pos + 1) n;
      entered = q.entered ++ v ∷ [];
    },
    idle nothing,
  )

  unfoldable pub tested : Option ℕ → Place A
  tested none = idle (dequeued none)
  tested (some p) = dequeue_read

  unfoldable pub read_value : Queue A → Option ℕ → Place A
  read_value q none = null_read
  read_value q (some p) = dequeue_store (q.value p)

  unfoldable pub store_tail : A → Queue A → Option ℕ → Queue A × Place A
  store_tail v q none = (q, null_read)
  store_tail v q (some p) =
      (record q { tail = p; tail_pos = q.tail_pos + 1 }, idle (dequeued (some v)))

  unfoldable pub move : Call A → ℕ → Queue A → Place A → Queue A × Place A
  move c i q (idle r) = (q, enter c)
  move c i q (alloc_test v) = (q, if q.first == q.tail_copy then alloc_load v else alloc_cached v)
  move c i q (alloc_load v) =
      (record q { tail_copy = q.tail; copy_pos = q.tail_pos }, alloc_again v)
  move c i q (alloc_again v) = (q, if q.first == q.tail_copy then alloc_new v else alloc_cached v)
  move c i q (alloc_cached v) = take_cached v q (q.next q.first)
  move c i q (alloc_new v) = make_new v q
  move c i q (enqueue_link n v) = link n v q
  move c i q dequeue_load = (q, tested (q.next q.tail))
  move c i q dequeue_read = (q, read_value q (q.next q.tail))
  move c i q (dequeue_store v) = store_tail v q (q.next q.tail)
  move c i q null_read = (q, null_read)

  -- A call that no other thread overlaps, from the place on where it stands, for at most so many moves.
  unfoldable pub alone : ℕ → Queue A → Place A → Queue A × Place A
  alone zero q p = (q, p)
  alone (suc k) q (idle r) = (q, idle r)
  alone (suc k) q p = let (q', p') = move try_dequeue 0 q p in alone k q' p'

  -- The loops of the constructor. A call of `enqueue` has at most 5 moves, one of `try_dequeue` 3.
  unfoldable pub enqueue_times : A → ℕ → Queue A → Queue A
  enqueue_times dummy zero q = q
  enqueue_times dummy (suc n) q = enqueue_times dummy n (alone 5 q (alloc_test dummy)).0

  unfoldable pub dequeue_times : ℕ → Queue A → Queue A
  dequeue_times zero q = q
  dequeue_times (suc n) q = dequeue_times n (alone 3 q dequeue_load).0

  -- The constructor.
  unfoldable pub constructed : A → ℕ → Queue A
  constructed dummy pre_alloc = dequeue_times pre_alloc (enqueue_times dummy pre_alloc (new dummy))

  -- The destructor, with so many rounds of its loop.
  unfoldable pub destroy : ℕ → Queue A → Deleted
  destroy rounds q = delete_all rounds q.next (λ k. ltb k q.fresh) (some q.first)
