-- ===== src/Pipeline/Buffer.antt =====
-- What the pipeline relies on of its buffer, and the ring as such a buffer.
use stats.Base.{ℕ, suc, ◌≤◌, ◌≡◌, ◌∙◌, true, some, List, arith, length, take, drop}
use stats.Queue
use stats.Ring.{RingBuffer, push, push_drop_oldest, pop_batch}
use stats.Ring.Invariant.{Holds, HasRoom}
use stats.Ring.Refine.{push_refines}
use stats.Ring.Release.{pop_batch_lem}
use stats.Ring.Evict.{drop_oldest_refines}
use stats.Pipeline.{BufferOps}

-- `Rep n b q`: the buffer holds the queue, and takes `n` more items before its positions wrap.
pub record IsQueue {B M : Type 0} (ops : BufferOps B M) : Type 1 where
  pub Rep : ℕ → B → List M → Type 0
  pub bounded : (n : ℕ) (b : B) (q : List M) → Rep n b q → length q ≤ ops.cap
  pub spare : (n : ℕ) (b : B) (q : List M) → Rep (suc n) b q → Rep n b q
  pub push_lem :
      (n : ℕ) (b : B) (q : List M) (m : M)
      → Rep (suc n) b q
      → let (ok, q') = Queue.push ops.cap q m in
        (b' : B) × (ops.push b m ≡ some (ok, b')) × Rep n b' q'
  pub push_drop_oldest_lem :
      (n : ℕ) (b : B) (q : List M) (m : M)
      → Rep (suc n) b q
      → let (old, q') = Queue.push_drop_oldest ops.cap q m in
        (b' : B) × (ops.push_drop_oldest b m ≡ some (old, true, b')) × Rep n b' q'
  pub pop_batch_lem :
      (n : ℕ) (b : B) (q : List M) (k : ℕ)
      → Rep n b q
      → (b' : B) × (ops.pop_batch b k ≡ some (take k q, b')) × Rep n b' (drop k q)

abbrev pub ring_ops : {M : Type 0} → ℕ → ℕ → BufferOps (RingBuffer M) M
ring_ops fuel cap = record {
  cap = cap;
  push = λ rb m. push (suc fuel) rb (some m);
  push_drop_oldest = λ rb m. push_drop_oldest (suc fuel) rb (some m);
  pop_batch = λ rb k. pop_batch (suc fuel) rb k;
}

abbrev pub RingRep : {M : Type 0} → ℕ → ℕ → RingBuffer M → List M → Type 0
RingRep cap n rb q = Holds rb q × HasRoom n rb × (rb.capacity ≡ cap)

pub ring_push :
    (M : Type 0) (fuel cap n : ℕ) (rb : RingBuffer M) (q : List M) (m : M)
    → RingRep cap (suc n) rb q
    → let (ok, q') = Queue.push cap q m in
      (rb' : RingBuffer M) × (push (suc fuel) rb (some m) ≡ some (ok, rb')) × RingRep cap n rb' q'
ring_push M fuel cap n rb q m (held, room, same) =
    let (rb', runs, held', counts) = push_refines rb q m fuel held (omega arith) in
    rw (← same) (
      rb',
      runs,
      (held', ground (arith, counts.same_capacity, counts.writer_near), counts.same_capacity),
    )

pub ring_push_drop_oldest :
    (M : Type 0) (fuel cap n : ℕ) (rb : RingBuffer M) (q : List M) (m : M)
    → RingRep cap (suc n) rb q
    → let (old, q') = Queue.push_drop_oldest cap q m in
      (rb' : RingBuffer M) × (push_drop_oldest (suc fuel) rb (some m) ≡ some (old, true, rb'))
      × RingRep cap n rb' q'
ring_push_drop_oldest M fuel cap n rb q m (held, room, same) =
    let (rb', runs, held', counts) = drop_oldest_refines rb q m fuel held (omega arith) in
    rw (← same) (
      rb',
      runs,
      (held', omega (arith, counts.same_capacity, counts.writer_near), counts.same_capacity),
    )

-- The ring keeps what the pipeline relies on.
unfoldable pub ring_queue : (M : Type 0) (fuel cap : ℕ) → IsQueue (ring_ops {M = M} fuel cap)
ring_queue M fuel cap = record {
  Rep = RingRep cap;
  bounded = λ n rb q (held, room, same). omega (arith, held.bounded, same);
  spare = λ n rb q (held, room, same). (held, omega arith, same);
  push_lem = ring_push M fuel cap;
  push_drop_oldest_lem = ring_push_drop_oldest M fuel cap;
  pop_batch_lem = λ n rb q k (held, room, same).
      let (rb', runs, held', counts) = pop_batch_lem rb q k fuel held (omega arith) in
      (
        rb',
        runs,
        (
          held',
          omega (arith, counts.same_capacity, counts.writer_near),
          counts.same_capacity ∙ same,
        ),
      );
}
