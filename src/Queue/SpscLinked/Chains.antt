-- ===== src/Queue/SpscLinked/Chains.antt =====
-- What the moves of the producer leave of the chain.
use hope_threading.Prelude.{
  ℕ, ◌+◌, ◌<◌, ◌≡◌, refl, false, some, [], ◌∷◌, arith, ◌==◌, length-append, get_elem?-append_left,
  get_elem?-append_length,
}
use hope_threading.Queue.SpscLinked.{Queue, take_cached, make_new, link}
use hope_threading.Queue.SpscLinked.Invariant.{Private, Chain}

module _ {A : Type 0} where
  -- The loads and the tests of the allocation.
  pub load-Chain :
      (q : Queue A) → Chain q → Chain (record q { tail_copy = q.tail; copy_pos = q.tail_pos })
  load-Chain q ch = record {
    cached = omega (arith, ch.cached, ch.copied);
    copied = omega arith;
    order = ch.order;
    first_at = ch.first_at;
    copy_at = ch.tail_at;
    tail_at = ch.tail_at;
    head_at = ch.head_at;
    counted = ch.counted;
    allocated = ch.allocated;
    distinct = ch.distinct;
    linked = ch.linked;
    ends = ch.ends;
    values = ch.values;
  }

  -- A first node that is not the copied tail stands before it.
  pub cached_left :
      (q : Queue A) → Chain q → (q.first == q.tail_copy) ≡ false → q.first_pos < q.copy_pos
  cached_left q ch apart = ground (arith, apart, ch.cached, ch.first_at, ch.copy_at)

  pub cached-next :
      (q : Queue A)
      → Chain q
      → q.first_pos < q.copy_pos
      → q.next q.first ≡ some (q.at (q.first_pos + 1))
  cached-next q ch left =
      rw ch.first_at
        (ch.linked q.first_pos (omega arith) (omega (arith, left, ch.copied, ch.order)))

  pub cached-Chain :
      (q : Queue A) (v : A)
      → Chain q
      → q.first_pos < q.copy_pos
      → Chain (take_cached v q (some (q.at (q.first_pos + 1)))).0
  unfolding take_cached
  cached-Chain q v ch left = record {
    cached = omega (arith, left);
    copied = ch.copied;
    order = ch.order;
    first_at = refl;
    copy_at = ch.copy_at;
    tail_at = ch.tail_at;
    head_at = ch.head_at;
    counted = ch.counted;
    allocated = λ k lo hi. ch.allocated k (omega (arith, lo)) hi;
    distinct = λ j k lo lt hi. ch.distinct j k (omega (arith, lo)) lt hi;
    linked = λ k lo hi. ground (arith, ch.linked k, lo, hi, ch.first_at, ch.distinct q.first_pos k);
    ends = ground (
      arith,
      ch.ends,
      ch.first_at,
      ch.distinct q.first_pos q.head_pos,
      left,
      ch.copied,
      ch.order,
    );
    values = λ k lo hi.
        ground (
          arith,
          ch.values k,
          lo,
          hi,
          ch.first_at,
          ch.distinct q.first_pos (k + 1),
          left,
          ch.copied,
        );
  }

  pub cached-Private :
      (q : Queue A) (v : A)
      → Chain q
      → q.first_pos < q.copy_pos
      → Private (take_cached v q (some (q.at (q.first_pos + 1)))).0 q.first v
  unfolding take_cached
  cached-Private q v ch left = record {
    allocated = ground (arith, ch.first_at, ch.allocated q.first_pos, left, ch.copied, ch.order);
    apart = λ k lo hi. ground (arith, ch.first_at, ch.distinct q.first_pos k, lo, hi);
    holds = ground arith;
    ends = ground arith;
  }

  pub new-Chain : (q : Queue A) (v : A) → Chain q → Chain (make_new v q).0
  unfolding make_new
  new-Chain q v ch = record {
    cached = ch.cached;
    copied = ch.copied;
    order = ch.order;
    first_at = ch.first_at;
    copy_at = ch.copy_at;
    tail_at = ch.tail_at;
    head_at = ch.head_at;
    counted = ch.counted;
    allocated = λ k lo hi. omega (arith, ch.allocated k lo hi);
    distinct = ch.distinct;
    linked = λ k lo hi. ground (arith, ch.linked k lo hi, ch.allocated k lo);
    ends = ground (arith, ch.ends, ch.allocated q.head_pos, ch.cached, ch.copied, ch.order);
    values =
        λ k lo hi. ground (arith, ch.values k lo hi, ch.allocated (k + 1), ch.cached, ch.copied);
  }

  pub new-Private : (q : Queue A) (v : A) → Chain q → Private (make_new v q).0 q.fresh v
  unfolding make_new
  new-Private q v ch = record {
    allocated = omega arith;
    apart = λ k lo hi e. omega (arith, ch.allocated k lo hi, e);
    holds = ground arith;
    ends = ground arith;
  }

  pub link-Chain : (q : Queue A) (n : ℕ) (v : A) → Chain q → Private q n v → Chain (link n v q).0
  unfolding link
  link-Chain q n v ch own = record {
    cached = ch.cached;
    copied = ch.copied;
    order = omega (arith, ch.order);
    first_at = ground (arith, ch.first_at, ch.cached, ch.copied, ch.order);
    copy_at = ground (arith, ch.copy_at, ch.copied, ch.order);
    tail_at = ground (arith, ch.tail_at, ch.order);
    head_at = ground arith;
    counted = omega (arith, length-append q.entered (v ∷ []), ch.counted);
    allocated = λ k lo hi. ground (arith, ch.allocated k lo, own.allocated, hi);
    distinct = λ j k lo lt hi. ground (arith, ch.distinct j k lo lt, own.apart j lo, lt, hi);
    linked = λ k lo hi. ground (arith, ch.linked k lo, ch.head_at, ch.distinct k q.head_pos lo, hi);
    ends =
        ground (arith, own.ends, own.apart q.head_pos, ch.head_at, ch.cached, ch.copied, ch.order);
    values = λ k lo hi. ground (
      arith,
      ch.values k lo,
      ch.counted,
      own.holds,
      hi,
      get_elem?-append_left q.entered (v ∷ []) k,
      get_elem?-append_length q.entered v,
    );
  }
