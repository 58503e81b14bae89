-- ===== src/HashMap/Concurrent/Reached.antt =====
-- The buckets in each reachable state.
use hope_threading.Prelude.{ℕ, ◌<◌, ◌≡◌, refl, sym, ◌∙◌, inl, inr, Bool, arith, if◌then◌else◌}
use hope_threading.Threads.{
  update, update-each, total, total-update, total-const, le-total_two, System, Reach, Reach-keeps,
}
use hope_threading.HashMap.Traits.{Traits}
use hope_threading.HashMap.Lists.{find_in}
use hope_threading.HashMap.Storage.History.{expected}
use hope_threading.HashMap.Concurrent.{
  Memory, Place, Request, move, new_memory, idle, nothing, emplace_section, find_section,
  obtain_section, remove_section, resize_claim, resize_load, resize_allocate, resize_copy,
  resize_swap, resize_store, resize_release, thrown,
}
use hope_threading.HashMap.Concurrent.Invariant.{resizes, Sizes, At}
use hope_threading.HashMap.Concurrent.Effects.{Sound, IsCalm, move-Effect}

-- One thread at most resizes a bucket, while its flag is set.
pub record Inv {K V : Type 0} (t : Traits K V) (b f n : ℕ) (m : Memory K V) (pc : ℕ → Place K V)
    : Type 0 where
  pub sound : Sound t b f m
  pub claimed : (i : ℕ) → total (resizes i) n pc ≡ (if (m.buckets i).resizing then 1 else 0)
  pub places : (j : ℕ) → j < n → At t b f m (pc j)

module _ {K V : Type 0} (t : Traits K V) (b f : ℕ) where
  -- A thread's copy stands, unless its bucket says that it has changed.
  At-calm :
      (m m' : Memory K V) (p : Place K V)
      → ((i : ℕ) → resizes i p ≡ 1 → IsCalm (m.buckets i).bucket (m'.buckets i).bucket)
      → At t b f m p
      → At t b f m' p
  At-calm m m' (resize_swap i capacity lists) calm (fit, copies) = (
    fit,
    λ clean. elim (calm i (ground arith)) [
      | inl changed ↦ absurd (ground (arith, clean, changed))
      | inr (same_lists, same_count, same_flag) ↦
          let old = copies (sym same_flag ∙ clean) in
          record {
            placed = old.placed;
            unique = old.unique;
            same = λ k. ground (arith, old.same k, same_lists, same_count);
          }
    ],
  )
  At-calm m m' (idle a) calm at = at
  At-calm m m' (emplace_section v) calm at = at
  At-calm m m' (find_section k) calm at = at
  At-calm m m' (obtain_section v) calm at = at
  At-calm m m' (remove_section k) calm at = at
  At-calm m m' (resize_claim i) calm at = at
  At-calm m m' (resize_load i) calm at = at
  At-calm m m' (resize_allocate i c) calm at = at
  At-calm m m' (resize_copy i c) calm at = at
  At-calm m m' (resize_store i c) calm at = at
  At-calm m m' (resize_release i) calm at = at
  At-calm m m' (thrown i) calm at = at

  module _ (can_allocate : ℕ → Bool) (sizes : Sizes f can_allocate) (n : ℕ) where
    move-Inv :
        (i : ℕ) (c : Request K V) (m : Memory K V) (pc : ℕ → Place K V)
        → i < n
        → Inv t b f n m pc
        → Inv t b f n
            (move t b f can_allocate c i m (pc i)).0
            (update pc i (move t b f can_allocate c i m (pc i)).1)
    move-Inv i c m pc lt inv =
        let m' = (move t b f can_allocate c i m (pc i)).0 in
        let p' = (move t b f can_allocate c i m (pc i)).1 in
        let effect =
          move-Effect t b f m inv.sound can_allocate sizes c i (pc i) (inv.places i lt) in
        record {
          sound = effect.sound;
          claimed = λ k.
              effect.claimed k (total (resizes k) n pc) (total (resizes k) n (update pc i p'))
                (total-update (resizes k) n pc i p' lt) (inv.claimed k);
          places = λ j below.
              update-each (λ k p. At t b f m' p) pc i j effect.own
                (λ ne.
                  At-calm m m' (pc j)
                    (λ k hers. elim (effect.calm k) [
                      | inl calm ↦ calm
                      | inr mine ↦ absurd (
                          ground (
                            arith,
                            le-total_two (resizes k) n pc i j lt below ne,
                            inv.claimed k,
                            hers,
                            mine,
                          ))
                    ])
                    (inv.places j below));
        }

    -- The storage as it is constructed, and no thread in a call.
    abbrev pub initial : System (Memory K V) (Place K V)
    initial = record { mem = new_memory; pc = λ _. idle nothing }

    initial-Inv : Inv t b f n initial.mem initial.pc
    unfolding new_memory find_in expected
    initial-Inv = record {
      sound = record {
        placed = λ i. record {
          some_list = omega arith;
          same_count = refl;
          placed = λ k j ne. refl;
          unique = λ j. tt;
        };
        fits = λ i. omega (arith, sizes);
        contents = λ k. refl;
      };
      claimed = λ i. total-const (resizes i) n (idle nothing) refl;
      places = λ j lt. tt;
    }

    pub Reach-Inv :
        {s : System (Memory K V) (Place K V)}
        → Reach (move t b f can_allocate) n initial s
        → Inv t b f n s.mem s.pc
    Reach-Inv r =
        Reach-keeps (move t b f can_allocate) n (Inv t b f n) move-Inv {s = initial} initial-Inv r
