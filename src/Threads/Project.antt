-- ===== src/Threads/Project.antt =====
-- A part of a system's memory on which each move of a thread is a move of another system, or none: then the
-- part runs as that system.
use hope_threading.Prelude.{
  ℕ, ◌≡◌, refl, sym, subst, ◌⊎◌, inl, inr, if_pos, if_neg, ℕ_discrete, ite,
}
use hope_threading.Threads.Family.{update}
use hope_threading.Threads.Steps.{Mover, System, Reach, pick, start, later}

module _ {C M L C' M' L' : Type 0} (move : Mover C M L) (move' : Mover C' M' L') (part : M → M')
    (place : L → L') where
  abbrev pub project : System M L → System M' L'
  project s = record { mem = part s.mem; pc = λ j. place (s.pc j) }

  -- What a move of the system is in the part.
  abbrev pub Follows : C → ℕ → M → L → Type 0
  Follows c i m p =
      ((c' : C') × (part (move c i m p).0 ≡ (move' c' i (part m) (place p)).0)
        × (place (move c i m p).1 ≡ (move' c' i (part m) (place p)).1))
      ⊎ ((part (move c i m p).0 ≡ part m) × (place (move c i m p).1 ≡ place p))

  same_system :
      {m m' : M'} {pc pc' : ℕ → L'}
      → m ≡ m'
      → ((j : ℕ) → pc j ≡ pc' j)
      → ◌≡◌ {A = System M' L'} (record { mem = m; pc = pc }) (record { mem = m'; pc = pc' })
  same_system e h = λ k. record { mem = e k; pc = λ j. h j k }

  place-update :
      (pc : ℕ → L) (i : ℕ) (p : L) {p' : L'}
      → place p ≡ p'
      → (j : ℕ) → place (update pc i p j) ≡ update (λ k. place (pc k)) i p' j
  place-update pc i p {p'} e j =
      elim (ℕ_discrete i j) as (λ d. place (ite d p (pc j)) ≡ ite d p' (place (pc j))) [
        | yes here ↦ e
        | no ne ↦ refl
      ]

  place-update_same :
      (pc : ℕ → L) (i : ℕ) (p : L)
      → place p ≡ place (pc i)
      → (j : ℕ) → place (update pc i p j) ≡ place (pc j)
  place-update_same pc i p e j = elim (ℕ_discrete i j) [
    | yes here ↦ rw (if_pos (ℕ_discrete i j) here) (subst (λ k. place p ≡ place (pc k)) here e)
    | no ne ↦ rw (if_neg (ℕ_discrete i j) ne) refl
  ]

  pub Reach-project :
      {n : ℕ} {s t : System M L}
      → ((c : C) (i : ℕ) (m : M) (p : L) → Follows c i m p)
      → Reach move n s t
      → Reach move' n (project s) (project t)
  Reach-project follows start = start
  Reach-project {n} {s} follows (later {t} r (pick i c lt)) = elim (follows c i t.mem (t.pc i)) [
    | inl (c', m_is, p_is) ↦
        subst (Reach move' n (project s))
          (sym (same_system m_is (place-update t.pc i (move c i t.mem (t.pc i)).1 p_is)))
          (later (Reach-project follows r) (pick i c' lt))
    | inr (m_is, p_is) ↦
        subst (Reach move' n (project s))
          (sym (same_system m_is (place-update_same t.pc i (move c i t.mem (t.pc i)).1 p_is)))
          (Reach-project follows r)
  ]
