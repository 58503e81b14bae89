-- ===== src/Sync/SeqLock/Safety.antt =====
-- What `seq_lock` promises to clients of which one thread stores.
use hope_threading.Prelude.{ℕ, ◌+◌, ◌^◌, ◌<◌, ◌≡◌, sym, subst, ◌≢◌, arith}
use hope_threading.Threads.{System, Reach, moves, turn}
use hope_threading.Sync.SeqLock.{
  Value, Memory, Place, store_copy, store_even, load_again, Call, move,
}
use hope_threading.Sync.SeqLock.Invariant.{Agree, IsEven, one_writer_move, AtReader, AtWriter}
use hope_threading.Sync.SeqLock.Keeps.{Inv, initial, Reach-Inv}

-- A load that began at an even sequence number and finds it again at its end has, in each state that
-- fewer than 2 ^ 62 moves reach, every unit of the value that the lock holds, and the one thread that
-- stores is not inside a copy.
pub even_load_consistent :
    {size w n : ℕ} {v : Value} {s : System Memory Place}
    → (r : Reach (one_writer_move size w) n (initial v) s)
    → moves (one_writer_move size w) r < 2 ^ 62
    → (i seq : ℕ) (buffer : Value) → i < n
    → s.pc i ≡ load_again seq buffer
    → IsEven seq
    → s.mem.seq ≡ seq
    → Agree size buffer s.mem.val × ((u : Value) (q k : ℕ) → s.pc w ≢ store_copy u q k)
even_load_consistent {size} {w} {n} {s} r few i seq buffer hi here even again = (
  (subst (AtReader size s.mem) here (v.readers i hi)).1 (sym again) even,
  λ u q k at. let writing = subst (AtWriter size s.mem) at v.writer in absurd (omega arith),
)
  where
    v : Inv size w n (moves (one_writer_move size w) r) s.mem s.pc
    v = Reach-Inv r few

-- A store that has written its last unit has left every unit of its value in the lock, in each state
-- that fewer than 2 ^ 62 moves reach; the sequence number is odd there, and the next move of the
-- thread makes it the even number that follows.
pub store_complete :
    {size w n : ℕ} {v : Value} {s : System Memory Place}
    → (r : Reach (one_writer_move size w) n (initial v) s)
    → moves (one_writer_move size w) r < 2 ^ 62
    → (u : Value) (seq : ℕ) (c : Call) → s.pc w ≡ store_even u seq
    → Agree size s.mem.val u
      × IsEven seq
      × (s.mem.seq ≡ seq + 1)
      × ((turn (one_writer_move size w) w c s).mem.seq ≡ seq + 2)
unfolding move
store_complete {size} {w} {n} {s} r few u seq c here =
    (at.2, at.1, at.0, rw (here, move) (omega (arith, v.small, few, at.0)))
  where
    v : Inv size w n (moves (one_writer_move size w) r) s.mem s.pc
    v = Reach-Inv r few

    at : AtWriter size s.mem (store_even u seq)
    at = subst (AtWriter size s.mem) here v.writer
