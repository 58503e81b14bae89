-- ===== src/Runtime/ThreadPool/Lost.antt =====
-- Work of `thread_pool` that is never done: the event keeps no notification, and `run` clears what it has
-- been handed without looking again.
use hope_threading.Prelude.{
  ℕ, zero, suc, ◌≡◌, refl, ◌∙◌, ◌≢◌, true, false, none, some, List, [], ◌∷◌, ◌++◌, arith,
}
use hope_threading.Threads.{turn, update, System, solo}
use hope_threading.Runtime.ThreadPool.{
  destroy, store_null, in_wait, with_work, event_wait, Pool, Place, pop_back, choose, move, idle,
  add_work,
}

pop_back-append : (ts : List ℕ) (t : ℕ) → pop_back (ts ++ t ∷ []) ≡ some (ts, t)
unfolding pop_back
pop_back-append [] t = refl
pop_back-append (u ∷ ts) t = rw (pop_back-append ts t) refl

module _ {A : Type 0} where
  -- The state that `add_work` leaves, from a state where thread `i` is the last of the free ones.
  abbrev pub after_add : ℕ → A → System (Pool A) (Place A) → System (Pool A) (Place A)
  after_add j v s = solo move j (add_work v) 5 s

  -- Nobody stops the pool, thread `i` is the one that is handed the next work, and thread `j` is idle.
  abbrev pub Next : ℕ → ℕ → List ℕ → System (Pool A) (Place A) → Type 0
  Next i j others s =
      (i ≢ j)
      × (s.mem.free_threads ≡ others ++ i ∷ [])
      × (s.mem.held ≡ false)
      × (s.mem.time_to_die ≡ false)
      × (s.mem.deleted i ≡ false)
      × (s.pc j ≡ idle)

  after_add-lem :
      (i j : ℕ) (v : A) (others : List ℕ) (s : System (Pool A) (Place A))
      → Next i j others s
      → ((after_add j v s).mem ≡ record s.mem {
        free_threads = others;
        handed = update s.mem.handed i (some v);
        waiting = update s.mem.waiting i false;
      })
        × ((after_add j v s).pc i ≡ s.pc i)
        × ((after_add j v s).pc j ≡ idle)
  unfolding solo move choose
  after_add-lem i j v others s (ne, free, held, alive, there, at) =
      ground (arith, ne, free, held, alive, there, at, pop_back-append others i)

  -- A thread in `wait` that nobody notifies stays there.
  solo-in_wait :
      (i k : ℕ) (s : System (Pool A) (Place A))
      → s.pc i ≡ in_wait
      → s.mem.waiting i ≡ true
      → ((solo move i destroy k s).pc i ≡ in_wait) × ((solo move i destroy k s).mem ≡ s.mem)
  unfolding solo move
  solo-in_wait i zero s at waits = (at, refl)
  solo-in_wait i (suc k) s at waits =
      let next =
        solo-in_wait i k (turn move i destroy s) (ground (arith, at, waits))
          (ground (arith, at, waits)) in
      (next.0, ground (arith, next.1, at))

  -- `wait` and what follows, without a notification.
  event_wait-in_wait :
      (i k : ℕ) (s : System (Pool A) (Place A))
      → s.pc i ≡ event_wait
      → let t = solo move i destroy (suc k) s in
        (t.pc i ≡ in_wait) × (t.mem ≡ record s.mem { waiting = update s.mem.waiting i true })
  unfolding solo move
  event_wait-in_wait i k s at =
      let next =
        solo-in_wait i k (turn move i destroy s) (ground (arith, at)) (ground (arith, at)) in
      (next.0, ground (arith, next.1, at))

  -- A notification that comes too early is lost: in each state of a pool that is not being stopped where a
  -- thread of it has become free and has still to call `wait`, while a client makes a whole call of
  -- `add_work` that chooses this thread, the thread sleeps after any number of moves of its own that
  -- are no spurious wake-ups; the work that it has been handed is not done, and the list of the free
  -- threads is as it was without its last entry, which was the thread.
  pub notification_lost :
      (i j k : ℕ) (v : A) (others : List ℕ) (s : System (Pool A) (Place A))
      → Next i j others s
      → s.pc i ≡ event_wait
      → let t = solo move i destroy (suc k) (after_add j v s) in
        (t.pc i ≡ in_wait)
        × (t.mem.handed i ≡ some v)
        × (t.mem.free_threads ≡ others)
        × (t.mem.done ≡ s.mem.done)
  notification_lost i j k v others s next at =
      let added = after_add-lem i j v others s next in
      let slept = event_wait-in_wait i k (after_add j v s) (added.1 ∙ at) in
      (
        slept.0,
        ground (arith, slept.1, added.0),
        ground (arith, slept.1, added.0),
        ground (arith, slept.1, added.0),
      )

  -- Work is lost from the pool: if the call comes between the load of the thread's work, which has found
  -- none, and the store of null behind it, the store overwrites the work. The thread sleeps as before,
  -- has no work, is not free, and nothing has been queued or done.
  pub work_overwritten :
      (i j k : ℕ) (v : A) (others : List ℕ) (s : System (Pool A) (Place A))
      → Next i j others s
      → s.pc i ≡ store_null none
      → let t = solo move i destroy (suc (suc k)) (after_add j v s) in
        (t.pc i ≡ in_wait)
        × (t.mem.handed i ≡ none)
        × (t.mem.free_threads ≡ others)
        × (t.mem.queued_work ≡ s.mem.queued_work)
        × (t.mem.done ≡ s.mem.done)
  unfolding solo move with_work
  work_overwritten i j k v others s next at =
      let added = after_add-lem i j v others s next in
      let u = turn move i destroy (after_add j v s) in
      let slept = event_wait-in_wait i k u (ground (arith, added.1, at)) in
      (
        slept.0,
        ground (arith, slept.1, added.0, added.1, at),
        ground (arith, slept.1, added.0, added.1, at),
        ground (arith, slept.1, added.0, added.1, at),
        ground (arith, slept.1, added.0, added.1, at),
      )
