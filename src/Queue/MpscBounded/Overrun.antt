-- ===== src/Queue/MpscBounded/Overrun.antt =====
-- What `try_enqueue` of `mpsc_bounded_queue` does when the queue is full.
use hope_threading.Prelude.{◌+◌, ◌%◌, ◌^◌, ◌<◌, ◌≡◌, ap, true, some, arith}
use hope_threading.Queue.MpscBounded.{Queue, try_enqueue, try_dequeue}
use hope_threading.Queue.MpscBounded.Contents.{IsSound}
use hope_threading.Queue.Slots.{slot_round}

-- A full queue accepts one item more and loses its oldest one: in each sound queue that holds `size`
-- items `try_enqueue` returns true, and the next `try_dequeue` returns the new value in place of the
-- oldest one.
pub full_overwrites :
    {A : Type 0} (q : Queue A) (v : A)
    → IsSound q
    → q.size < 2 ^ 62
    → q.head ≡ q.tail + q.size
    → ((try_enqueue q v).1 ≡ true) × ((try_dequeue (try_enqueue q v).0).1 ≡ some v)
unfolding try_enqueue try_dequeue
full_overwrites q v s cells e = ground (arith, s, slot_round q.size q.tail, ap (λ k. k % q.size) e)
