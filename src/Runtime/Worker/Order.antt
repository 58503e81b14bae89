-- ===== src/Runtime/Worker/Order.antt =====
-- What is added to an `async_worker` is worked on once, in the order of the exchanges of its queue.
use hope_threading.Prelude.{
  ℕ, zero, suc, ◌≤◌, ◌<◌, ◌≡◌, refl, sym, ap, ◌∙◌, Bool, true, false, [], ◌∷◌, ◌++◌, inl, inr,
  length, take, append-nil, arith, if◌then◌else◌,
}
use hope_threading.Threads.{update, System, Reach, Reach-keeps}
use hope_threading.Queue.MpscLinked as MpscLinked
use hope_threading.Queue.MpscLinked.Keeps as Keeps
use hope_threading.Runtime.Worker.{
  Worker, Place, Call, move, new_worker, idle, look, add_enqueue, add_store, add_notify, stop_store,
  stop_notify, stop_join, drain, call_payload, clear, wait, asleep, returned, add, stop, start_call,
}
use hope_threading.Runtime.Worker.Taken.{in_hand, runs, view, Inv, Chain-same}
use hope_threading.Runtime.Worker.Moves.{drain-Inv, add-Inv, run-Inv, call-Inv}

module _ {A : Type 0} (blank : A) (n : ℕ) where
  -- A move by a test.
  if-Inv :
      (pc : ℕ → Place A) (i : ℕ) (b : Bool) (x y : Worker A × Place A)
      → Inv n x.0 (update pc i x.1)
      → Inv n y.0 (update pc i y.1)
      → Inv n (if b then x else y).0 (update pc i (if b then x else y).1)
  if-Inv pc i true x y a b = a
  if-Inv pc i false x y a b = b

  if_place-Inv :
      (m : Worker A) (pc : ℕ → Place A) (i : ℕ) (b : Bool) (x y : Place A)
      → Inv n m (update pc i x)
      → Inv n m (update pc i y)
      → Inv n m (update pc i (if b then x else y))
  if_place-Inv m pc i true x y a b = a
  if_place-Inv m pc i false x y a b = b

  hand_at :
      (m : Worker A) (pc : ℕ → Place A) {p : Place A}
      → pc 0 ≡ p
      → m.done ++ in_hand p ≡ m.done ++ in_hand (pc 0)
  hand_at m pc at = ap (λ x. m.done ++ in_hand x) (sym at)

  move-Inv :
      (i : ℕ) (c : Call A) (m : Worker A) (pc : ℕ → Place A) (p : Place A)
      → pc i ≡ p
      → i < n
      → Inv n m pc
      → Inv n (move blank c i m p).0 (update pc i (move blank c i m p).1)
  unfolding move start_call
  move-Inv zero c m pc (drain p) at lt v = drain-Inv blank n c m pc v p lt at
  move-Inv (suc i) c m pc (add_enqueue p) at lt v = add-Inv blank n c m pc v i p lt at
  move-Inv zero c m pc look at lt v =
      if-Inv pc 0 m.stop_requested (record m { ended = true }, returned)
        (m, drain MpscLinked.dequeue_load)
        (run-Inv blank n c m pc v (record m { ended = true }) returned (ap view at) (inl refl) refl
          refl (hand_at m pc at))
        (run-Inv blank n c m pc v m (drain MpscLinked.dequeue_load) (ap view at) (inr refl) refl
          refl (hand_at m pc at))
  move-Inv zero c m pc (call_payload w) at lt v =
      run-Inv blank n c m pc v (record m { done = m.done ++ w ∷ [] })
        (drain MpscLinked.dequeue_load) (ap view at) (inr refl) refl refl
        (append-nil (m.done ++ w ∷ []) ∙ hand_at m pc at)
  move-Inv zero c m pc clear at lt v =
      run-Inv blank n c m pc v (record m { work_added = false }) wait (ap view at) (inl refl) refl
        refl (hand_at m pc at)
  move-Inv zero c m pc wait at lt v =
      if-Inv pc 0 m.work_added (m, look) (record m { sleeping = true }, asleep)
        (run-Inv blank n c m pc v m look (ap view at) (inl refl) refl refl (hand_at m pc at))
        (run-Inv blank n c m pc v (record m { sleeping = true }) asleep (ap view at) (inl refl) refl
          refl (hand_at m pc at))
  move-Inv zero c m pc asleep at lt v =
      if_place-Inv m pc 0 m.sleeping asleep wait
        (run-Inv blank n c m pc v m asleep (ap view at) (inl refl) refl refl (hand_at m pc at))
        (run-Inv blank n c m pc v m wait (ap view at) (inl refl) refl refl (hand_at m pc at))
  move-Inv zero c m pc returned at lt v =
      run-Inv blank n c m pc v m returned (ap view at) (inl refl) refl refl (hand_at m pc at)
  move-Inv (suc i) (add w) m pc idle at lt v =
      call-Inv blank n (add w) m pc v i m (add_enqueue (MpscLinked.enqueue_new w)) (ap view at)
        (inr (w, refl)) refl refl refl
  move-Inv (suc i) stop m pc idle at lt v =
      call-Inv blank n stop m pc v i (record m { stop_requested = true }) stop_store (ap view at)
        (inl refl) refl refl refl
  move-Inv (suc i) c m pc add_store at lt v =
      call-Inv blank n c m pc v i (record m { work_added = true }) add_notify (ap view at)
        (inl refl) refl refl refl
  move-Inv (suc i) c m pc add_notify at lt v =
      call-Inv blank n c m pc v i (record m { sleeping = false }) idle (ap view at) (inl refl) refl
        refl refl
  move-Inv (suc i) c m pc stop_store at lt v =
      call-Inv blank n c m pc v i (record m { work_added = true }) stop_notify (ap view at)
        (inl refl) refl refl refl
  move-Inv (suc i) c m pc stop_notify at lt v =
      call-Inv blank n c m pc v i (record m { sleeping = false }) stop_join (ap view at) (inl refl)
        refl refl refl
  move-Inv (suc i) c m pc stop_join at lt v =
      if_place-Inv m pc (suc i) m.ended idle stop_join
        (call-Inv blank n c m pc v i m idle (ap view at) (inl refl) refl refl refl)
        (call-Inv blank n c m pc v i m stop_join (ap view at) (inl refl) refl refl refl)
  move-Inv zero c m pc _ at lt v = absurd (ground (arith, v.worker, at))
  move-Inv (suc i) c m pc _ at lt v = absurd (ground (arith, v.clients (suc i), at))

  abbrev start_places : ℕ → Place A
  start_places zero = look
  start_places (suc i) = idle

  abbrev pub initial : System (Worker A) (Place A)
  initial = record { mem = new_worker blank; pc = start_places }

  initial-Inv : Inv n initial.mem initial.pc
  unfolding new_worker MpscLinked.new
  initial-Inv = record {
    chain =
        Chain-same blank n (MpscLinked.new blank) (λ j. MpscLinked.idle MpscLinked.nothing)
          (λ j. view (start_places j)) start_views (Keeps.initial-Inv blank n);
    worker = refl;
    clients = λ j pos. start_clients j pos;
    order = refl;
  }
    where
      start_views : (j : ℕ) → MpscLinked.idle MpscLinked.nothing ≡ view (start_places j)
      start_views zero = refl
      start_views (suc j) = refl

      start_clients : (j : ℕ) → 0 < j → runs (start_places j) ≡ false
      start_clients zero pos = absurd (omega (arith, pos))
      start_clients (suc j) pos = refl

  -- Nothing is lost, made up or turned round: in each reachable state what the worker has worked on
  -- and what it has taken out of the queue and not yet worked on are together the items from the first
  -- one up to the tail of the queue, in the order in which the exchanges of its head have entered them.
  pub worked_in_order :
      {s : System (Worker A) (Place A)}
      → Reach (move blank) n initial s
      → (s.mem.done ++ in_hand (s.pc 0) ≡ take s.mem.queued_work.tail s.mem.queued_work.entered)
        × (s.mem.queued_work.tail ≤ length s.mem.queued_work.entered)
  worked_in_order {s} r = (v.order, omega (arith, v.chain.order, v.chain.counted))
    where
      v : Inv n s.mem s.pc
      v =
          Reach-keeps (move blank) n (Inv n)
            (λ i c m pc lt inv. move-Inv i c m pc (pc i) refl lt inv) {s = initial} initial-Inv r
