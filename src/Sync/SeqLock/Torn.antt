-- ===== src/Sync/SeqLock/Torn.antt =====
-- What `load` returns in the middle of a `store`.
use hope_threading.Prelude.{ℕ, zero, suc, ◌+◌, ◌≡◌, sym, ap, ◌∙◌, ◌≢◌, true, arith, ℕ_discrete}
use hope_threading.Threads.{update, System, turn, solo}
use hope_threading.Sync.SeqLock.{
  Value, Memory, Place, load_seq, load_copy, loaded, store_copy, Call, move,
}
use hope_threading.Sync.SeqLock.Invariant.{Agree}

module _ (size i : ℕ) (c : Call) where
  -- What a thread that runs alone from `s` to the end of its `load` ends with at `t`.
  record Loaded (s t : System Memory Place) : Type 0 where
    result : (b : Value) × (t.pc i ≡ loaded b true) × Agree size b s.mem.val
    memory : t.mem ≡ s.mem
    others : (j : ℕ) → j ≢ i → t.pc j ≡ s.pc j

  load_from :
      (rest k seq : ℕ) (b : Value) (s : System Memory Place)
      → rest + k ≡ size
      → s.pc i ≡ load_copy seq b k
      → s.mem.seq ≡ seq
      → Agree k b s.mem.val
      → Loaded s (solo (move size) i c (suc (suc rest)) s)
  unfolding solo move
  load_from zero k seq b s e here same ag = record {
    result = (b, ground arith, λ q h. ag q (omega arith));
    memory = ground arith;
    others = λ j ne. ground arith;
  }
  load_from (suc rest) k seq b s e here same ag =
      let t : System Memory Place = turn (move size) i c s in
      let same_mem : t.mem ≡ s.mem = ground arith in
      let ih : Loaded t (solo (move size) i c (suc (suc rest)) t) =
        load_from rest (k + 1) seq (update b k (s.mem.val k)) t (omega arith) (ground arith)
          (ap (λ m. m.seq) same_mem ∙ same)
          (λ q h. elim (ℕ_discrete k q) [
            | yes e ↦ ground arith
            | no ne ↦ ground (arith, ag q (omega arith), same_mem)
          ]) in
      record {
        result = (
          ih.result.0,
          ih.result.1,
          λ q h. ih.result.2 q h ∙ ap (λ (m : Memory). m.val q) same_mem,
        );
        memory = ih.memory ∙ same_mem;
        others = λ j ne. ih.others j ne ∙ ground arith;
      }

-- `load` also succeeds in the middle of a store, since it never looks whether the sequence number is
-- even: a thread that begins a `load` while another one has written only the first `k` of the units
-- of its value, and that runs on alone, returns true after `size + 3` moves, with a buffer that holds
-- whatever the lock then holds; the lock and the thread that stores are where they were.
pub load_accepts_torn :
    (size i j k seq : ℕ) (c : Call) (b u : Value) (s : System Memory Place)
    → s.pc i ≡ load_seq b
    → s.pc j ≡ store_copy u seq k
    → (b' : Value) × ((solo (move size) i c (suc (suc (suc size))) s).pc i ≡ loaded b' true)
      × Agree size b' s.mem.val
      × ((solo (move size) i c (suc (suc (suc size))) s).mem ≡ s.mem)
      × ((solo (move size) i c (suc (suc (suc size))) s).pc j ≡ store_copy u seq k)
unfolding solo move
load_accepts_torn size i j k seq c b u s here there =
    let t : System Memory Place = turn (move size) i c s in
    let same_mem : t.mem ≡ s.mem = ground arith in
    let all : Loaded size i c t (solo (move size) i c (suc (suc size)) t) =
      load_from size i c size 0 s.mem.seq b t (omega arith) (ground arith) (ground arith)
        (λ q h. absurd (omega arith)) in
    let apart : j ≢ i = λ e. clash (sym here ∙ ap s.pc (sym e) ∙ there) in
    (
      all.result.0,
      all.result.1,
      λ q h. all.result.2 q h ∙ ap (λ (m : Memory). m.val q) same_mem,
      all.memory ∙ same_mem,
      all.others j apart ∙ ground arith,
    )
  where
    clash : load_seq b ≡ store_copy u seq k → ⊥
    clash e = cc
