-- ===== src/Runtime/ThreadPool/Tokens.antt =====
-- Each thread of the pool is in one hand: it is free, or a client is about to give it work, or it has some.
use hope_threading.Prelude.{
  ℕ, ◌+◌, ◌≤◌, ◌≡◌, refl, ◌≢◌, inl, inr, Bool, true, false, Option, none, some, List, [], ◌∷◌, ◌++◌,
  arith, ◌==◌, if◌then◌else◌, Option-cases,
}
use hope_threading.Runtime.ThreadPool.{
  kill_next, delete_thread, enter, wake, Pool, Place, Call, pop_back, choose, get_work, with_work,
  move, idle, add_test, add_choose, perform_store, perform_set, destroy_clear, destroy_poll,
  destroy_lock, freed_access, shutdown_test, shutdown_store, shutdown_set, shutdown_join, look,
  load_work, store_null, call_work, return_or_get, event_wait, in_wait, returned,
}

-- How often thread `t` stands in a list of threads.
unfoldable pub occurs : ℕ → List ℕ → ℕ
occurs t [] = 0
occurs t (u ∷ us) = occurs t us + (if u == t then 1 else 0)

pub occurs-append :
    (t u : ℕ) (us : List ℕ) → occurs t (us ++ u ∷ []) ≡ occurs t us + (if u == t then 1 else 0)
unfolding occurs
occurs-append t u [] = refl
occurs-append t u (w ∷ us) = omega (arith, occurs-append t u us)

pop_back-none : (us : List ℕ) → pop_back us ≡ none → us ≡ []
unfolding pop_back
pop_back-none [] e = refl
pop_back-none (w ∷ us) e = elim (Option-cases (pop_back us)) [
  | inl last ↦ absurd (ground (arith, e, last))
  | inr (found, some_last) ↦ absurd (ground (arith, e, some_last))
]

occurs-pop_back :
    (t u : ℕ) (us others : List ℕ)
    → pop_back us ≡ some (others, u)
    → occurs t us ≡ occurs t others + (if u == t then 1 else 0)
unfolding occurs pop_back
occurs-pop_back t u [] others e = absurd (ground (arith, e))
occurs-pop_back t u (w ∷ us) others e = elim (Option-cases (pop_back us)) [
  | inl last ↦ ground (arith, e, last, pop_back-none us last)
  | inr ((before, back), found) ↦ ground (arith, e, found, occurs-pop_back t back us before found)
]

module _ {A : Type 0} where
  -- Whether a place is that of a client about to give work to thread `t`.
  abbrev pub aims : ℕ → Place A → ℕ
  aims t (perform_store u v) = if u == t then 1 else 0
  aims t _ = 0

  -- Whether a thread has taken work, and whether it has cleared what it was handed.
  abbrev pub active : Place A → ℕ
  active (store_null (some v)) = 1
  active (call_work v) = 1
  active return_or_get = 1
  active _ = 0

  abbrev pub works : Place A → Bool
  works (call_work v) = true
  works return_or_get = true
  works _ = false

  abbrev pub busy : Option A → Place A → ℕ
  busy none p = active p
  busy (some v) p = 1

  -- In how many hands thread `t` is, where `others` clients but one are about to give it work.
  abbrev pub hands : ℕ → Pool A → Place A → ℕ → ℕ
  hands t m p others = occurs t m.free_threads + busy (m.handed t) p + others

  -- What thread `t` was handed is cleared before it works.
  abbrev pub Cleared : Option A → Place A → Type 0
  Cleared o p = works p ≡ true → o ≡ none

  -- A move of thread `i`, seen from itself as a thread of the pool.
  pub own-hands :
      (i : ℕ) (c : Call A) (m : Pool A) (p : Place A) (others : ℕ)
      → hands i m p (aims i p + others) ≤ 1
      → Cleared (m.handed i) p
      → let (m', p') = move c i m p in
        (hands i m' p' (aims i p' + others) ≤ 1) × Cleared (m'.handed i) p'
  unfolding move enter choose get_work with_work wake kill_next delete_thread occurs
  own-hands i (Call.add_work v) m idle others h e = ground (arith, h, e)
  own-hands i Call.destroy m idle others h e = ground (arith, h, e)
  own-hands i Call.spurious m idle others h e = ground (arith, h, e)
  own-hands i c m (add_test v) others h e = ground (arith, h, e)
  own-hands i c m (add_choose v) others h e = elim (Option-cases (pop_back m.free_threads)) [
    | inl none_free ↦ ground (arith, h, e, none_free)
    | inr ((rest, u), found) ↦
        ground (arith, h, e, found, occurs-pop_back i u m.free_threads rest found)
  ]
  own-hands i c m (perform_store u v) others h e = ground (arith, h, e)
  own-hands i c m (perform_set u) others h e = ground (arith, h, e)
  own-hands i c m destroy_clear others h e = ground (arith, h, e)
  own-hands i c m destroy_poll others h e = ground (arith, h, e)
  own-hands i c m destroy_lock others h e = ground (arith, h, e)
  own-hands i c m freed_access others h e = ground (arith, h, e)
  own-hands i c m (shutdown_test u) others h e = ground (arith, h, e)
  own-hands i c m (shutdown_store u) others h e = ground (arith, h, e)
  own-hands i c m (shutdown_set u) others h e = ground (arith, h, e)
  own-hands i c m (shutdown_join u) others h e = ground (arith, h, e)
  own-hands i c m look others h e = ground (arith, h, e)
  own-hands i c m load_work others h e = ground (arith, h, e)
  own-hands i c m (store_null none) others h e = ground (arith, h, e)
  own-hands i c m (store_null (some v)) others h e = ground (arith, h, e)
  own-hands i c m (call_work v) others h e = ground (arith, h, e)
  own-hands i c m return_or_get others h e = ground (arith, h, e, occurs-append i i m.free_threads)
  own-hands i c m event_wait others h e = ground (arith, h, e)
  own-hands i c m in_wait others h e = ground (arith, h, e)
  own-hands i c m returned others h e = ground (arith, h, e)

  -- The same seen from another thread of the pool.
  pub other-hands :
      (i t : ℕ) (c : Call A) (m : Pool A) (p q : Place A) (others : ℕ)
      → i ≢ t
      → hands t m q (aims t p + others) ≤ 1
      → Cleared (m.handed t) q
      → let (m', p') = move c i m p in
        (hands t m' q (aims t p' + others) ≤ 1) × Cleared (m'.handed t) q
  unfolding move enter choose get_work with_work wake kill_next delete_thread occurs
  other-hands i t (Call.add_work v) m idle q others ne h e = ground (arith, h, e, ne)
  other-hands i t Call.destroy m idle q others ne h e = ground (arith, h, e, ne)
  other-hands i t Call.spurious m idle q others ne h e = ground (arith, h, e, ne)
  other-hands i t c m (add_test v) q others ne h e = ground (arith, h, e, ne)
  other-hands i t c m (add_choose v) q others ne h e =
      elim (Option-cases (pop_back m.free_threads)) [
        | inl none_free ↦ ground (arith, h, e, none_free, ne)
        | inr ((rest, u), found) ↦
            ground (arith, h, e, found, occurs-pop_back t u m.free_threads rest found, ne)
      ]
  other-hands i t c m (perform_store u v) q others ne h e = ground (arith, h, e, ne)
  other-hands i t c m (perform_set u) q others ne h e = ground (arith, h, e, ne)
  other-hands i t c m destroy_clear q others ne h e = ground (arith, h, e, ne)
  other-hands i t c m destroy_poll q others ne h e = ground (arith, h, e, ne)
  other-hands i t c m destroy_lock q others ne h e = ground (arith, h, e, ne)
  other-hands i t c m freed_access q others ne h e = ground (arith, h, e, ne)
  other-hands i t c m (shutdown_test u) q others ne h e = ground (arith, h, e, ne)
  other-hands i t c m (shutdown_store u) q others ne h e = ground (arith, h, e, ne)
  other-hands i t c m (shutdown_set u) q others ne h e = ground (arith, h, e, ne)
  other-hands i t c m (shutdown_join u) q others ne h e = ground (arith, h, e, ne)
  other-hands i t c m look q others ne h e = ground (arith, h, e, ne)
  other-hands i t c m load_work q others ne h e = ground (arith, h, e, ne)
  other-hands i t c m (store_null none) q others ne h e = ground (arith, h, e, ne)
  other-hands i t c m (store_null (some v)) q others ne h e = ground (arith, h, e, ne)
  other-hands i t c m (call_work v) q others ne h e = ground (arith, h, e, ne)
  other-hands i t c m return_or_get q others ne h e =
      ground (arith, h, e, occurs-append t i m.free_threads, ne)
  other-hands i t c m event_wait q others ne h e = ground (arith, h, e, ne)
  other-hands i t c m in_wait q others ne h e = ground (arith, h, e, ne)
  other-hands i t c m returned q others ne h e = ground (arith, h, e, ne)
