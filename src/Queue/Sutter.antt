-- ===== src/Queue/Sutter.antt =====
-- `sutter_queue` of lib/hope_thread/containers/queue/sutter_queue.h: a chain of nodes with a divider. One
-- consumer moves the divider, and one producer adds nodes behind it and deletes those before it.
mod Invariant
mod Keeps
mod Reached
pub mod Safety
pub mod Freed
mod Tests
use hope_threading.Prelude.{
  ℕ, ◌+◌, Bool, true, false, Option, none, some, List, [], ◌∷◌, ◌++◌, ◌==◌, if◌then◌else◌,
}
use hope_threading.Threads.{update}
use hope_threading.Queue.Destroy.{Deleted, delete_all}

-- The nodes by their number, in the order in which they are made, with `live` for those that are
-- allocated and `fresh` for the number of the next one; then `m_first`, `m_divider` and `m_last`. `entered` is no part of the code: the items in the
-- order of the calls.
pub record Queue (A : Type 0) : Type 0 where
  pub value : ℕ → A
  pub next : ℕ → Option ℕ
  pub live : ℕ → Bool
  pub fresh : ℕ
  pub first : ℕ
  pub divider : ℕ
  pub last : ℕ
  pub entered : List A

-- What a thread's last call has returned.
pub data Result (A : Type 0) : Type 0 where
  nothing : Result A
  dequeued : Option A → Result A

-- Where a thread stands. In `enqueue`: at the new node and its link, at the store of `m_last`, at the load
-- of the divider, and at the test of the loop that deletes. In `dequeue`: at the two loads, at the read
-- of the value, and at the store of the divider. `null_read` is a read through a null pointer.
pub data Place (A : Type 0) : Type 0 where
  idle : Result A → Place A
  enqueue_link : A → Place A
  enqueue_publish : ℕ → Place A
  enqueue_load : Place A
  enqueue_delete : ℕ → Place A
  dequeue_divider : Place A
  dequeue_last : ℕ → Place A
  dequeue_read : ℕ → Place A
  dequeue_store : ℕ → A → Place A
  null_read : Place A

pub data Call (A : Type 0) : Type 0 where
  enqueue : A → Call A
  dequeue : Call A

module _ {A : Type 0} where
  unfoldable pub enter : Call A → Place A
  enter (enqueue v) = enqueue_link v
  enter dequeue = dequeue_divider

  -- The constructor, with its first node.
  unfoldable pub new : A → Queue A
  new blank = record {
    value = λ _. blank;
    next = λ _. none;
    live = update (λ _. false) 0 true;
    fresh = 1;
    first = 0;
    divider = 0;
    last = 0;
    entered = [];
  }

  -- `last->next = new node`
  unfoldable pub link : A → Queue A → Queue A × Place A
  link v q =
      let node = q.fresh in
      (
        record q {
          value = update q.value node v;
          next = update (update q.next node none) q.last (some node);
          live = update q.live node true;
          fresh = node + 1;
          entered = q.entered ++ v ∷ [];
        },
        enqueue_publish q.last,
      )

  -- The rest of a step that follows `next`.
  unfoldable pub publish : Queue A → Option ℕ → Queue A × Place A
  publish q none = (q, null_read)
  publish q (some node) = (record q { last = node }, enqueue_load)

  unfoldable pub delete_first : Queue A → Option ℕ → Queue A × Place A
  delete_first q none = (q, null_read)
  delete_first q (some node) =
      (record q { first = node; live = update q.live q.first false }, enqueue_load)

  unfoldable pub read_next : Queue A → Option ℕ → Place A
  read_next q none = null_read
  read_next q (some node) = dequeue_store node (q.value node)

  unfoldable pub move : Call A → ℕ → Queue A → Place A → Queue A × Place A
  move c i q (idle r) = (q, enter c)
  move c i q (enqueue_link v) = link v q
  move c i q (enqueue_publish l) = publish q (q.next l)
  move c i q enqueue_load = (q, enqueue_delete q.divider)
  move c i q (enqueue_delete d) =
      if q.first == d then (q, idle nothing) else delete_first q (q.next q.first)
  move c i q dequeue_divider = (q, dequeue_last q.divider)
  move c i q (dequeue_last d) = (q, if d == q.last then idle (dequeued none) else dequeue_read d)
  move c i q (dequeue_read d) = (q, read_next q (q.next d))
  move c i q (dequeue_store node v) = (record q { divider = node }, idle (dequeued (some v)))
  move c i q null_read = (q, null_read)

  -- The destructor, with so many rounds of its loop.
  unfoldable pub destroy : ℕ → Queue A → Deleted
  destroy rounds q = delete_all rounds q.next q.live (some q.first)
