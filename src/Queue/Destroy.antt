-- ===== src/Queue/Destroy.antt =====
-- The destructors of `sutter_queue`, `mpsc_queue` and `spsc_queue`: the loop that deletes a chain of nodes.
use hope_threading.Prelude.{
  ◌≢◌, subst, ℕ_discrete, inr, inl, Bool-cases, ℕ, zero, suc, ◌+◌, ◌≤◌, ◌<◌, ◌≡◌, Bool, true, false,
  Option, none, some, arith, if◌then◌else◌,
}
use hope_threading.Threads.{update}

-- The loop has ended with the nodes that are still allocated, or it is at the read of a node that is
-- not allocated, or its rounds have run out.
pub data Deleted : Type 0 where
  finished : (ℕ → Bool) → Deleted
  dangling : ℕ → Deleted
  unfinished : Deleted

-- `while (p != nullptr)`, with so many rounds: a round reads `next` of a node and deletes the node.
unfoldable pub delete_all : ℕ → (ℕ → Option ℕ) → (ℕ → Bool) → Option ℕ → Deleted
delete_all rounds next live none = finished live
delete_all zero next live (some p) = unfinished
delete_all (suc rounds) next live (some p) =
    let rest = delete_all rounds next (update live p false) (next p) in
    if live p then rest else dangling p

-- It ends within so many rounds, and leaves no node allocated.
abbrev pub FreesAll : ℕ → (ℕ → Option ℕ) → (ℕ → Bool) → ℕ → Type 0
FreesAll rounds next live p =
    (after : ℕ → Bool) × (delete_all rounds next live (some p) ≡ finished after)
    × ((k : ℕ) → after k ≡ false)

-- The nodes from `p` on, with `more` behind it, are linked and allocated, and no others are allocated.
pub record IsChain (more : ℕ) (next : ℕ → Option ℕ) (live : ℕ → Bool) (p : ℕ) : Type 0 where
  pub linked : (k : ℕ) → p ≤ k → k < p + more → next k ≡ some (k + 1)
  pub ends : next (p + more) ≡ none
  pub alive : (k : ℕ) → p ≤ k → k ≤ p + more → live k ≡ true
  pub dead : (k : ℕ) → live k ≡ true → (p ≤ k) × (k ≤ p + more)

IsChain-tail :
    (more : ℕ) (next : ℕ → Option ℕ) (live : ℕ → Bool) (p : ℕ)
    → IsChain (suc more) next live p
    → IsChain more next (update live p false) (p + 1)
IsChain-tail more next live p chain = record {
  linked = λ k lo hi. chain.linked k (omega (arith, lo)) (omega (arith, hi));
  ends = ground (arith, chain.ends);
  alive = λ k lo hi. ground (arith, chain.alive k, lo, hi);
  dead = λ k h. ground (arith, chain.dead k, h);
}

pub delete_all-lem :
    (more rounds : ℕ) (next : ℕ → Option ℕ) (live : ℕ → Bool) (p : ℕ)
    → more < rounds
    → IsChain more next live p
    → FreesAll rounds next live p
unfolding delete_all
delete_all-lem more zero next live p enough chain = absurd (omega (arith, enough))
delete_all-lem zero (suc rounds) next live p enough chain =
    (update live p false, ground (arith, chain.alive p, chain.ends), λ k. none_but k)
  where
    none_but : (k : ℕ) → update live p false k ≡ false
    none_but k = elim (Bool-cases (live k)) [
      | inl held ↦ ground (arith, chain.dead k, held)
      | inr gone ↦ ground (arith, gone)
    ]
delete_all-lem (suc more) (suc rounds) next live p enough chain =
    let (after, ends, none_left) =
      delete_all-lem more rounds next (update live p false) (p + 1) (omega (arith, enough))
        (IsChain-tail more next live p chain) in
    (after, ground (arith, ends, chain.alive p, chain.linked p), none_left)

-- The same for nodes in another order than that of their numbers: `at` is the node at each position.
pub record IsChainAt (at : ℕ → ℕ) (more : ℕ) (next : ℕ → Option ℕ) (live : ℕ → Bool) (p : ℕ)
    : Type 0 where
  pub linked : (k : ℕ) → p ≤ k → k < p + more → next (at k) ≡ some (at (k + 1))
  pub ends : next (at (p + more)) ≡ none
  pub alive : (k : ℕ) → p ≤ k → k ≤ p + more → live (at k) ≡ true
  pub distinct : (j k : ℕ) → p ≤ j → j < k → k ≤ p + more → at j ≢ at k
  pub dead : (a : ℕ) → live a ≡ true → (k : ℕ) × (p ≤ k) × (k ≤ p + more) × (at k ≡ a)

IsChainAt-tail :
    (at : ℕ → ℕ) (more : ℕ) (next : ℕ → Option ℕ) (live : ℕ → Bool) (p : ℕ)
    → IsChainAt at (suc more) next live p
    → IsChainAt at more next (update live (at p) false) (p + 1)
IsChainAt-tail at more next live p chain = record {
  linked = λ k lo hi. chain.linked k (omega (arith, lo)) (omega (arith, hi));
  ends = subst (λ k. next (at k) ≡ none) {x = p + suc more} (omega arith) chain.ends;
  alive = λ k lo hi. ground (arith, chain.alive k, chain.distinct p k, lo, hi);
  distinct = λ j k lo lt hi. chain.distinct j k (omega (arith, lo)) lt (omega (arith, hi));
  dead = λ a h.
      let other : (at p ≢ a) × (live a ≡ true) = ground (arith, h) in
      let (k, lo, hi, here) = chain.dead a other.1 in
      (
        k,
        elim (ℕ_discrete p k) [
          | yes e ↦ absurd (other.0 (ground (arith, e, here)))
          | no ne ↦ omega (arith, ne, lo)
        ],
        omega (arith, hi),
        here,
      );
}

pub delete_all-at :
    (at : ℕ → ℕ) (more rounds : ℕ) (next : ℕ → Option ℕ) (live : ℕ → Bool) (p : ℕ)
    → more < rounds
    → IsChainAt at more next live p
    → FreesAll rounds next live (at p)
unfolding delete_all
delete_all-at at more zero next live p enough chain = absurd (omega (arith, enough))
delete_all-at at zero (suc rounds) next live p enough chain =
    (update live (at p) false, ground (arith, chain.alive p, chain.ends), λ k. none_but k)
  where
    none_but : (k : ℕ) → update live (at p) false k ≡ false
    none_but k = elim (Bool-cases (live k)) [
      | inl held ↦
          let (j, lo, hi, here) = chain.dead k held in
          let same : j ≡ p = omega (arith, lo, hi) in ground (arith, same, here)
      | inr gone ↦ ground (arith, gone)
    ]
delete_all-at at (suc more) (suc rounds) next live p enough chain =
    let (after, ends, none_left) =
      delete_all-at at more rounds next (update live (at p) false) (p + 1) (omega (arith, enough))
        (IsChainAt-tail at more next live p chain) in
    (after, ground (arith, ends, chain.alive p, chain.linked p), none_left)
