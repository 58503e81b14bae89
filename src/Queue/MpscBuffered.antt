-- ===== src/Queue/MpscBuffered.antt =====
-- `mpsc_queue` of lib/hope_thread/containers/queue/mpsc_queue.h with `buffered`, a call at a time: nodes
-- that have been taken are used again.
mod Chain
mod Held
pub mod Reuse
mod Tests
use hope_threading.Prelude.{
  ℕ, ◌+◌, Option, none, some, List, [], ◌∷◌, ◌++◌, ◌==◌, if◌then◌else◌, Bool, true, false,
}
use hope_threading.Threads.{update}

-- The nodes by their number, with `none` for a null pointer, how many have been allocated, and
-- `m_buffer_head`, `m_tail` and `m_head`.
pub record Queue (A : Type 0) : Type 0 where
  pub value : ℕ → A
  pub next : ℕ → Option ℕ
  pub allocated : ℕ
  pub buffer_head : Option ℕ
  pub tail : ℕ
  pub head : ℕ

pub data Call (A : Type 0) : Type 0 where
  enqueue_call : A → Call A
  dequeue_call : Call A

module _ {A : Type 0} where
  unfoldable pub new : A → Queue A
  new blank = record {
    value = λ _. blank;
    next = λ _. none;
    allocated = 1;
    buffer_head = some 0;
    tail = 0;
    head = 0;
  }

  -- A `new node` with the value.
  unfoldable pub fresh_node : Queue A → A → Queue A × ℕ
  fresh_node q v = (
    record q {
      value = update q.value q.allocated v;
      next = update q.next q.allocated none;
      allocated = q.allocated + 1;
    },
    q.allocated,
  )

  -- A node of the buffer with the value.
  unfoldable pub used_again : Queue A → A → ℕ → Queue A × ℕ
  used_again q v node = (
    record q {
      buffer_head = q.next node;
      value = update q.value node v;
      next = update q.next node none;
    },
    node,
  )

  -- `none` for a read through the null pointer.
  unfoldable pub alloc_node : Queue A → A → Option ℕ → Option (Queue A × ℕ)
  alloc_node q v none = none
  alloc_node q v (some node) = some (if node == q.tail then fresh_node q v else used_again q v node)

  unfoldable pub linked : Option (Queue A × ℕ) → Option (Queue A)
  linked none = none
  linked (some (q, node)) = some (record q { head = node; next = update q.next q.head (some node) })

  unfoldable pub enqueue : Queue A → A → Option (Queue A)
  enqueue q v = linked (alloc_node q v q.buffer_head)

  unfoldable pub popped : A → Queue A → Option ℕ → Queue A × Option A
  popped blank q none = (q, none)
  popped blank q (some node) =
      (record q { tail = node; value = update q.value node blank }, some (q.value node))

  -- `blank` is a default value.
  unfoldable pub try_dequeue : A → Queue A → Queue A × Option A
  try_dequeue blank q = popped blank q (q.next q.tail)

  unfoldable pub entered : Option (Queue A) → List (Option A) → Option (Queue A × List (Option A))
  entered none results = none
  entered (some q) results = some (q, results)

  -- A call on what the calls before have left and returned; `none` for a read through the null pointer.
  unfoldable pub called :
      A → Call A → Option (Queue A × List (Option A)) → Option (Queue A × List (Option A))
  called blank c none = none
  called blank (enqueue_call v) (some (q, results)) = entered (enqueue q v) results
  called blank dequeue_call (some (q, results)) =
      let (q', r) = try_dequeue blank q in some (q', results ++ r ∷ [])

  -- The calls of a list, the last one first.
  unfoldable pub after_calls : A → List (Call A) → Option (Queue A × List (Option A))
  after_calls blank [] = some (new blank, [])
  after_calls blank (c ∷ before) = called blank c (after_calls blank before)
