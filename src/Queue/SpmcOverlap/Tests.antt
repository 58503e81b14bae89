-- ===== src/Queue/SpmcOverlap/Tests.antt =====
-- `spmc_bounded_message_queue` of two cells, and messages of two units, on schedules of a writer and a
-- consumer, and the theorems there.
use hope_threading.Prelude.{
  ℕ, zero, suc, ◌+◌, ◌<◌, ◌≡◌, ◌⊎◌, refl, List, [], ◌∷◌, ◌++◌, arith, length, get_elem?, some,
}
use hope_threading.Threads.{update, Mover, Run, run, moves}
use hope_threading.Queue.SpmcOverlap.{
  Message, Place, Queue, Call, try_enqueue, try_dequeue, new, move, consumer,
}
use hope_threading.Queue.SpmcOverlap.Invariant.{one_writer, Agree}
use hope_threading.Queue.SpmcOverlap.Reached.{initial}
use hope_threading.Queue.SpmcOverlap.Safety.{read_whole}

abbrev both : ℕ → Message ℕ
both v u = v

abbrev ring : Mover (Call ℕ) (Queue ℕ) (Place ℕ)
ring = one_writer 2 2 (both 0)

-- Moves of the writer, and of the consumer.
abbrev write : ℕ → ℕ → List (ℕ × Call ℕ)
write zero v = []
write (suc k) v = (0, try_enqueue (both v)) ∷ write k v

abbrev read : ℕ → List (ℕ × Call ℕ)
read zero = []
read (suc k) = (1, try_dequeue (both 0)) ∷ read k

-- The consumer, which is made first, has copied the message of position 0.
abbrev copied : Run ring 2 (initial (both 0))
copied = run ring 2 (initial (both 0)) (read 2 ++ write 6 5 ++ read 4)

-- The message of these two units.
abbrev units : ℕ → ℕ → Message ℕ
units a b = update (update (both 0) 0 a) 1 b

read_whole_example :
    ((move 2 2 (try_dequeue (both 0)) 1 copied.last.mem (copied.last.pc 1)).1
      ≡ consumer 1 (some (units 5 5)))
    × (0 < copied.last.mem.writer_pos)
    × (((m : Message ℕ) × (get_elem? copied.last.mem.log 0 ≡ some m) × Agree 2 2 2 (units 5 5) m)
        ⊎ (0 + 2 < length copied.last.mem.log))
unfolding run move moves new
read_whole_example =
    read_whole 2 2 (both 0) copied.reach (omega arith) 1 0 2 (units 5 5) (try_dequeue (both 0)) refl
      (omega arith)

-- The writer goes round and overwrites the second unit, between the two that the consumer copies.
abbrev torn : Run ring 2 (initial (both 0))
torn =
    run ring 2 (initial (both 0))
      (read 2 ++ write 6 5 ++ read 3 ++ write 6 6 ++ write 6 7 ++ read 2)

torn_read : torn.last.pc 1 ≡ consumer 1 (some (units 5 7))
unfolding run move new
torn_read = refl
