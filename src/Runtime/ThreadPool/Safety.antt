-- ===== src/Runtime/ThreadPool/Safety.antt =====
-- What `thread_pool` promises in each reachable state.
use hope_threading.Prelude.{
  ℕ, zero, suc, ◌+◌, ◌-◌, ◌≤◌, ◌<◌, ◌≡◌, subst, ◌≢◌, none, arith, ℕ_discrete, ltb, if◌then◌else◌,
}
use hope_threading.Threads.{
  update, total, total-update, total_none, le-total, le-total_two, System, Reach, Reach-keeps,
}
use hope_threading.Runtime.ThreadPool.{
  Pool, Place, Call, move, up_to, new_pool, idle, look, perform_store,
}
use hope_threading.Runtime.ThreadPool.Tokens.{
  occurs, occurs-append, aims, active, hands, Cleared, own-hands, other-hands,
}

occurs-up_to : (t size : ℕ) → occurs t (up_to size) ≡ (if ltb t size then 1 else 0)
unfolding occurs up_to
occurs-up_to t zero = ground arith
occurs-up_to t (suc size) = ground (arith, occurs-append t size (up_to size), occurs-up_to t size)

module _ {A : Type 0} (size n : ℕ) where
  Inv : Pool A → (ℕ → Place A) → Type 0
  Inv m pc = (t : ℕ) → (hands t m (pc t) (total (aims t) n pc) ≤ 1) × Cleared (m.handed t) (pc t)

  module _ (i : ℕ) (c : Call A) (m : Pool A) (pc : ℕ → Place A) (lt : i < n) (inv : Inv m pc) where
    abbrev m' : Pool A
    m' = (move c i m (pc i)).0

    abbrev p' : Place A
    p' = (move c i m (pc i)).1

    -- The other clients that are about to give work to thread `t`.
    abbrev others : ℕ → ℕ
    others t = total (aims t) n pc - aims t (pc i)

    within : (t : ℕ) → aims t (pc i) ≤ total (aims t) n pc
    within t = le-total (aims t) n pc i lt

    rest : (t : ℕ) → total (aims t) n (update pc i p') ≡ aims t p' + others t
    rest t = omega (arith, within t, total-update (aims t) n pc i p' lt)

    own : (hands i m' p' (aims i p' + others i) ≤ 1) × Cleared (m'.handed i) p'
    unfolding Inv
    own = own-hands i c m (pc i) (others i) (omega (arith, (inv i).0, within i)) (inv i).1

    other :
        (t : ℕ)
        → i ≢ t
        → (hands t m' (pc t) (aims t p' + others t) ≤ 1) × Cleared (m'.handed t) (pc t)
    unfolding Inv
    other t ne =
        other-hands i t c m (pc i) (pc t) (others t) ne (omega (arith, (inv t).0, within t))
          (inv t).1

    move-Inv : Inv m' (update pc i p')
    unfolding Inv
    move-Inv t = elim (ℕ_discrete i t) [
      | yes e ↦
          subst
            (λ k.
              (hands k m' (update pc i p' k) (total (aims k) n (update pc i p')) ≤ 1)
              × Cleared (m'.handed k) (update pc i p' k))
            e (ground (arith, own, rest i))
      | no ne ↦ ground (arith, other t ne, rest t, ne)
    ]

  -- The pool as it is constructed: its threads at the beginning of `run`, the others in no call.
  abbrev pub initial : System (Pool A) (Place A)
  initial = record { mem = new_pool size; pc = λ i. if ltb i size then look else idle }

  Reach-Inv : {s : System (Pool A) (Place A)} → Reach move n initial s → Inv s.mem s.pc
  unfolding Inv new_pool
  Reach-Inv r =
      Reach-keeps move n Inv (λ i c m pc lt inv. move-Inv i c m pc lt inv) {s = initial}
        (λ t.
          ground (arith, occurs-up_to t size, total_none (aims t) n initial.pc (λ k. ground arith)))
        r

  module _ {s : System (Pool A) (Place A)} (r : Reach move n initial s) where
    -- A free thread has nothing to do: while a thread of the pool is in the list of the free ones, it is
    -- there once, it has been handed no work that it has not taken, it does none, and no client is about
    -- to hand it some.
    pub free_thread_idle :
        (t : ℕ)
        → 0 < occurs t s.mem.free_threads
        → (occurs t s.mem.free_threads ≡ 1)
          × (s.mem.handed t ≡ none)
          × (active (s.pc t) ≡ 0)
          × ((j : ℕ) (v : A) → j < n → s.pc j ≢ perform_store t v)
    unfolding Inv
    free_thread_idle t free =
        let inv = (Reach-Inv r t).0 in
        (
          ground (arith, inv, free),
          ground (arith, inv, free),
          ground (arith, inv, free),
          λ j v lt at. ground (arith, inv, free, at, le-total (aims t) n s.pc j lt),
        )

    -- Work replaces no work: when a client is about to hand work to a thread, the thread has been handed
    -- none that it has not taken, it does none and is not free, and no other client is about to.
    pub handed_to_idle :
        (j t : ℕ) (v : A)
        → j < n
        → s.pc j ≡ perform_store t v
        → (s.mem.handed t ≡ none)
          × (active (s.pc t) ≡ 0)
          × (occurs t s.mem.free_threads ≡ 0)
          × ((k : ℕ) (w : A) → k < n → s.pc k ≡ perform_store t w → k ≡ j)
    unfolding Inv
    handed_to_idle j t v lt at =
        let inv = (Reach-Inv r t).0 in
        let aim = le-total (aims t) n s.pc j lt in
        (
          ground (arith, inv, aim, at),
          ground (arith, inv, aim, at),
          ground (arith, inv, aim, at),
          λ k w lt' at'. ground (arith, inv, at, at', le-total_two (aims t) n s.pc k j lt' lt),
        )
