-- ===== src/Queue/MpmcBounded/Accesses.antt =====
-- What each access of the queue leaves to the thread that makes it and to the others.
use hope_threading.Prelude.{
  ℕ, ◌+◌, ◌-◌, ◌%◌, ◌^◌, ◌≤◌, ◌<◌, ◌≡◌, refl, subst, ◌≢◌, ◌⊎◌, inl, true, none, some, [], ◌∷◌, ◌++◌,
  arith,
}
use hope_threading.Threads.{update}
use hope_threading.Queue.MpmcBounded.{
  Queue, Place, idle, enqueue_exchange, enqueue_write, enqueue_publish, dequeue_exchange,
  dequeue_read, dequeue_publish, wrap, enqueued, dequeued,
}
use hope_threading.Queue.MpmcBounded.Invariant.{cell, At, Shape, entering, leaving}
use hope_threading.Queue.MpmcBounded.Taking.{
  take_in-Shape, take_in-own, take_in-At, take_out-Shape, take_out-own, take_out-At,
}
use hope_threading.Queue.MpmcBounded.Publishing.{
  write-Shape, write-own, write-At, publish_in-Shape, publish_in-At, publish_out-Shape,
  publish_out-At,
}

-- A thread goes from `p` to `p'` and the queue from `q` to `q'`.
pub record Moved {A : Type 0} (size : ℕ) (q : Queue A) (p : Place A) (q' : Queue A) (p' : Place A)
    : Type 0 where
  pub shape : Shape size q'
  pub own : At size q' p'
  pub others :
      (r : Place A)
      → ((pos : ℕ) → entering p ≡ some pos → entering r ≢ some pos)
      → ((pos : ℕ) → leaving p ≡ some pos → leaving r ≢ some pos)
      → At size q r
      → At size q' r
  pub fresh_in :
      (pos : ℕ) → entering p' ≡ some pos → (entering p ≡ some pos) ⊎ (q.enqueue_pos ≤ pos)
  pub fresh_out : (pos : ℕ) → leaving p' ≡ some pos → (leaving p ≡ some pos) ⊎ (q.dequeue_pos ≤ pos)
  pub small : q'.enqueue_pos ≤ q.enqueue_pos + 1

module _ {A : Type 0} (size : ℕ) (two : 2 ≤ size) (q : Queue A) (shape : Shape size q) where
  -- A move that leaves the queue alone.
  pub still :
      {p p' : Place A}
      → At size q p'
      → entering p' ≡ none
      → (leaving p' ≡ none) ⊎ (leaving p' ≡ leaving p)
      → Moved size q p q p'
  still at no_in out = record {
    shape = shape;
    own = at;
    others = λ r _ _ a. a;
    fresh_in = λ pos e. ground arith;
    fresh_out = λ pos e. ground arith;
    small = omega arith;
  }

  module _ (bound : q.enqueue_pos + 1 < 2 ^ 62) (cells : size ≤ 2 ^ 62) where
    pub won_in :
        (v : A)
        → cell size q q.enqueue_pos ≡ q.enqueue_pos
        → Moved size q
            (enqueue_exchange v q.enqueue_pos)
            (record q { enqueue_pos = wrap (q.enqueue_pos + 1); entered = q.entered ++ v ∷ [] })
            (enqueue_write v q.enqueue_pos)
    won_in v here =
        subst
          (λ x.
            Moved size q (enqueue_exchange v q.enqueue_pos)
              (record q { enqueue_pos = x; entered = q.entered ++ v ∷ [] })
              (enqueue_write v q.enqueue_pos))
          {x = q.enqueue_pos + 1} {y = wrap (q.enqueue_pos + 1)} (omega arith)
          (record {
            shape = take_in-Shape size two q shape v here;
            own = take_in-own size two q shape v here;
            others = λ r _ _ a. take_in-At size two q shape v here r a;
            fresh_in = λ pos e. ground arith;
            fresh_out = λ pos e. ground arith;
            small = omega arith;
          })

    pub won_out :
        cell size q q.dequeue_pos ≡ q.dequeue_pos + 1
        → Moved size q
            (dequeue_exchange q.dequeue_pos)
            (record q { dequeue_pos = wrap (q.dequeue_pos + 1) })
            (dequeue_read q.dequeue_pos)
    won_out here =
        subst
          (λ x.
            Moved size q (dequeue_exchange q.dequeue_pos) (record q { dequeue_pos = x })
              (dequeue_read q.dequeue_pos))
          {x = q.dequeue_pos + 1} {y = wrap (q.dequeue_pos + 1)} (omega (arith, shape))
          (record {
            shape = take_out-Shape size two q shape here;
            own = take_out-own size two q shape here;
            others = λ r _ _ a. take_out-At size two q shape here r a;
            fresh_in = λ pos e. ground arith;
            fresh_out = λ pos e. ground arith;
            small = omega arith;
          })

    pub wrote :
        (v : A) (pos : ℕ)
        → At size q (enqueue_write v pos)
        → Moved size q
            (enqueue_write v pos)
            (record q { item = update q.item (pos % size) v })
            (enqueue_publish pos)
    wrote v pos at = record {
      shape = write-Shape size two q shape pos v at.0 at.1;
      own = write-own size two q shape pos v at.0 at.1;
      others = λ r ne _ a. write-At size two q shape pos v at.0 at.1 r (ne pos refl) a;
      fresh_in = λ pos e. inl e;
      fresh_out = λ pos e. ground arith;
      small = omega arith;
    }

    pub filled :
        (pos : ℕ)
        → At size q (enqueue_publish pos)
        → Moved size q
            (enqueue_publish pos)
            (record q { sequence = update q.sequence (pos % size) (wrap (pos + 1)) })
            (idle (enqueued true))
    filled pos at =
        subst
          (λ x.
            Moved size q (enqueue_publish pos)
              (record q { sequence = update q.sequence (pos % size) x }) (idle (enqueued true)))
          {x = pos + 1} {y = wrap (pos + 1)} (omega (arith, at))
          (record {
            shape = publish_in-Shape size two q shape pos at.0 at.1;
            own = tt;
            others = λ r ne _ a. publish_in-At size two q shape pos at.0 at.1 r (ne pos refl) a;
            fresh_in = λ pos e. ground arith;
            fresh_out = λ pos e. ground arith;
            small = omega arith;
          })

    pub emptied :
        (v : A) (pos : ℕ)
        → At size q (dequeue_publish v pos)
        → Moved size q
            (dequeue_publish v pos)
            (record q { sequence = update q.sequence (pos % size) (wrap (pos + (size - 1) + 1)) })
            (idle (dequeued (some v)))
    emptied v pos at =
        subst
          (λ x.
            Moved size q (dequeue_publish v pos)
              (record q { sequence = update q.sequence (pos % size) x }) (idle (dequeued (some v))))
          {x = pos + size} {y = wrap (pos + (size - 1) + 1)} (omega (arith, at, shape))
          (record {
            shape = publish_out-Shape size two q shape pos at.0;
            own = tt;
            others = λ r _ ne a. publish_out-At size two q shape pos at.0 r (ne pos refl) a;
            fresh_in = λ pos e. ground arith;
            fresh_out = λ pos e. ground arith;
            small = omega arith;
          })
