-- ===== src/Runtime/Worker/Lost.antt =====
-- A wake-up of `async_worker` that is lost: `add` and `stop` store true before the worker stores false.
use hope_threading.Prelude.{ℕ, zero, suc, ◌≡◌, refl, ap, ◌∙◌, ◌≢◌, true, [], ◌∷◌, ◌++◌, arith}
use hope_threading.Threads.{System, solo, turn}
use hope_threading.Queue.MpscLinked as MpscLinked
use hope_threading.Runtime.Worker.{
  start_call, arrived_add, Worker, Place, Call, move, idle, stop_join, clear, asleep, add, stop,
}

module _ {A : Type 0} (blank : A) where
  -- A sleeping worker that nobody notifies sleeps on.
  solo-asleep :
      (c : Call A) (k : ℕ) (s : System (Worker A) (Place A))
      → s.pc 0 ≡ asleep
      → s.mem.sleeping ≡ true
      → ((solo (move blank) 0 c k s).pc 0 ≡ asleep)
        × ((solo (move blank) 0 c k s).mem ≡ s.mem)
        × ((j : ℕ) → j ≢ 0 → (solo (move blank) 0 c k s).pc j ≡ s.pc j)
  unfolding solo move
  solo-asleep c zero s at sleeps = (at, refl, λ j ne. refl)
  solo-asleep c (suc k) s at sleeps =
      let next =
        solo-asleep c k (turn (move blank) 0 c s) (ground (arith, at, sleeps))
          (ground (arith, at, sleeps)) in
      (ground (arith, next.0), ground (arith, next.1, at), λ j ne. ground (arith, next.2 j ne, ne))

  -- `clear` and `wait` of the worker, and what follows.
  clear-asleep :
      (c : Call A) (k : ℕ) (s : System (Worker A) (Place A))
      → s.pc 0 ≡ clear
      → let t = solo (move blank) 0 c (suc (suc k)) s in
        (t.pc 0 ≡ asleep)
        × (t.mem.queued_work ≡ s.mem.queued_work)
        × (t.mem.ended ≡ s.mem.ended)
        × ((j : ℕ) → j ≢ 0 → t.pc j ≡ s.pc j)
  unfolding solo move
  clear-asleep c k s at =
      let slept =
        solo-asleep c k (turn (move blank) 0 c (turn (move blank) 0 c s)) (ground (arith, at))
          (ground (arith, at)) in
      (
        slept.0,
        ground (arith, slept.1, at),
        ground (arith, slept.1, at),
        λ j ne. ground (arith, slept.2 j ne, ne),
      )

  -- A wake-up can be lost: in each state where the worker has made its last `try_dequeue` and has still
  -- to store false, if another thread makes its whole call of `add`, the worker falls asleep, and sleeps
  -- after any number of further moves of its own, while the call has returned, its item is the last one
  -- that has been entered in the queue, and the tail of the queue is where it was.
  pub add_lost :
      (i k : ℕ) (v : A) (c : Call A) (s : System (Worker A) (Place A))
      → i ≢ 0
      → s.pc 0 ≡ clear
      → s.pc i ≡ idle
      → let t = solo (move blank) 0 c (suc (suc k)) (solo (move blank) i (add v) 6 s) in
        (t.pc 0 ≡ asleep)
        × (t.mem.queued_work.entered ≡ s.mem.queued_work.entered ++ v ∷ [])
        × (t.mem.queued_work.tail ≡ s.mem.queued_work.tail)
        × (t.pc i ≡ idle)
  unfolding solo move start_call arrived_add MpscLinked.move
  add_lost i k v c s ne at from =
      let lost = clear-asleep c k (solo (move blank) i (add v) 6 s) (ground (arith, at, ne)) in
      (
        lost.0,
        ap (λ q. q.entered) lost.1 ∙ ground (arith, from),
        ap (λ q. q.tail) lost.1 ∙ ground (arith, from),
        lost.3 i ne ∙ ground (arith, from),
      )

  -- The same for `stop`: if its request, its store and its notification come then, the worker falls
  -- asleep, and the thread that has called `stop` waits for its end.
  pub stop_lost :
      (i k : ℕ) (c : Call A) (s : System (Worker A) (Place A))
      → i ≢ 0
      → s.pc 0 ≡ clear
      → s.pc i ≡ idle
      → let t = solo (move blank) 0 c (suc (suc k)) (solo (move blank) i stop 3 s) in
        (t.pc 0 ≡ asleep) × (t.pc i ≡ stop_join) × (t.mem.ended ≡ s.mem.ended)
  unfolding solo move
  stop_lost i k c s ne at from =
      let lost = clear-asleep c k (solo (move blank) i stop 3 s) (ground (arith, at, ne)) in
      (lost.0, lost.3 i ne ∙ ground (arith, from), lost.2 ∙ ground (arith, from))
