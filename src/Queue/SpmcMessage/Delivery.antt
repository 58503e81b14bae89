-- ===== src/Queue/SpmcMessage/Delivery.antt =====
-- What a consumer of a `spmc_bounded_message_queue` gets.
use hope_threading.Prelude.{
  ℕ, zero, suc, ◌+◌, ◌^◌, ◌≤◌, ◌<◌, ◌≡◌, refl, ap₂, ◌∙◌, subst, Option, some, List, [], ◌∷◌, ◌++◌,
  map, append-nil, append_assoc, arith, ltb, if◌then◌else◌, length, get_elem?, length-append,
  get_elem?-past, get_elem?-append_middle,
}
use hope_threading.Queue.Slots.{slot_round}
use hope_threading.Queue.SpmcMessage.{Queue, Consumer, try_enqueue, try_dequeue, create_consumer}
use hope_threading.Queue.SpmcMessage.Log.{Holds, try_enqueue-Holds}

module _ {A : Type 0} (size : ℕ) where
  -- A consumer that is at most `size` messages behind gets the message at its position of all that
  -- were ever written, or none if it has had them all, and moves on by one exactly if it gets one.
  pub try_dequeue_next :
      (log : List A) (q : Queue A) (c : Consumer)
      → Holds size log q
      → c.read_position ≤ q.writer_pos
      → q.writer_pos ≤ c.read_position + size
      → let (c', out) = try_dequeue size q c in
        (out ≡ get_elem? log c.read_position)
        × (c'.read_position
            ≡ (if ltb c.read_position (length log) then c.read_position + 1 else c.read_position))
  unfolding try_dequeue
  try_dequeue_next log q c h lo hi =
      ground
        (arith, h.recent c.read_position, h.counted, h.small, get_elem?-past log c.read_position)

  -- A consumer that has fallen behind by more than `size` messages and at most twice as many gets, in
  -- place of the message at its position, the one `size` messages later, and is not told.
  pub overtaken_reads_later :
      (log : List A) (q : Queue A) (c : Consumer)
      → Holds size log q
      → c.read_position + size < q.writer_pos
      → q.writer_pos ≤ c.read_position + size + size
      → (try_dequeue size q c).1 ≡ get_elem? log (c.read_position + size)
  unfolding try_dequeue
  overtaken_reads_later log q c h behind near =
      ground (arith, h.recent (c.read_position + size), slot_round size c.read_position)

  -- The writer's calls, and the calls of one consumer until it has made so many.
  pub publish_all : Queue A → List A → Queue A
  publish_all q [] = q
  publish_all q (x ∷ xs) = publish_all (try_enqueue size q x).0 xs

  pub drain : ℕ → Queue A → Consumer → List (Option A)
  drain zero q c = []
  drain (suc n) q c = let (c', out) = try_dequeue size q c in out ∷ drain n q c'

  publish_all-Holds :
      (xs log : List A) (q : Queue A)
      → Holds size log q
      → q.writer_pos + length xs + size < 2 ^ 64
      → Holds size (log ++ xs) (publish_all q xs)
  unfolding publish_all try_enqueue
  publish_all-Holds [] log q h lim = rw append-nil h
  publish_all-Holds (x ∷ xs) log q h lim = rw (← append_assoc log (x ∷ []) xs) (
      publish_all-Holds xs (log ++ x ∷ []) (try_enqueue size q x).0
        (try_enqueue-Holds size log q x h (omega arith)) (omega arith))

  drain-map :
      (ys read : List A) (q : Queue A) (c : Consumer)
      → Holds size (read ++ ys) q
      → length read ≡ c.read_position
      → length ys ≤ size
      → drain (length ys) q c ≡ map some ys
  unfolding drain
  drain-map [] read q c h at few = refl
  drain-map (y ∷ ys) read q c h at few = ap₂ ◌∷◌ (next.0 ∙ here) (
      drain-map ys (read ++ y ∷ []) q (try_dequeue size q c).0
        (rw (append_assoc read (y ∷ []) ys) h)
        (ground (arith, next.1, at, length-append read (y ∷ []), total)) (omega arith))
    where
      total : length (read ++ y ∷ ys) ≡ length read + suc (length ys)
      total = length-append read (y ∷ ys)

      next :
          ((try_dequeue size q c).1 ≡ get_elem? (read ++ y ∷ ys) c.read_position)
          × ((try_dequeue size q c).0.read_position ≡ (
              if ltb c.read_position (length (read ++ y ∷ ys))
              then c.read_position + 1
              else c.read_position))
      next =
          try_dequeue_next (read ++ y ∷ ys) q c h (omega (arith, total, h.counted, at))
            (omega (arith, total, h.counted, at))

      here : get_elem? (read ++ y ∷ ys) c.read_position ≡ some y
      here =
          subst (λ k. get_elem? (read ++ y ∷ ys) k ≡ some y) at (get_elem?-append_middle read ys y)

  -- Every message in order: a consumer that is created before the writer publishes a list of at most
  -- `size` messages gets exactly these, in order, by as many calls.
  pub drain_published :
      (xs log : List A) (q : Queue A)
      → Holds size log q
      → q.writer_pos + length xs + size < 2 ^ 64
      → length xs ≤ size
      → drain (length xs) (publish_all q xs) (create_consumer q) ≡ map some xs
  unfolding create_consumer
  drain_published xs log q h lim few =
      drain-map xs log (publish_all q xs) (create_consumer q) (publish_all-Holds xs log q h lim)
        h.counted few
