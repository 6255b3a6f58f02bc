-- ===== src/Ring/Runs.antt =====
-- Any sequence of calls on a ring, against the same calls on a bounded queue.
use stats.Base.{
  ℕ, ◌+◌, ◌≤◌, ◌≡◌, refl, Bool, true, Option, none, some, List, [], ◌∷◌, arith, length, take, drop,
}
use stats.Queue
use stats.Ring.{RingBuffer, push, push_drop_oldest, pop, pop_batch}
use stats.Ring.Invariant.{Holds, HasRoom}
use stats.Ring.Refine.{push_refines}
use stats.Ring.Release.{pop_refines, pop_batch_lem}
use stats.Ring.Evict.{drop_oldest_refines}

pub data Call {ℓ} (A : Type ℓ) : Type ℓ where
  pushes : A → Call A
  replaces : A → Call A
  pops : Bool → Call A
  batches : ℕ → Call A

pub data Reply {ℓ} (A : Type ℓ) : Type ℓ where
  took : Bool → Reply A
  evicted : Option A → Bool → Reply A
  popped : Option A → Reply A
  batch : List A → Reply A

module _ {ℓ} {A : Type ℓ} where
  -- One call with one round of fuel; `none` if that does not end it.
  pub call : RingBuffer A → Call A → Option (Reply A × RingBuffer A)
  call rb (pushes x) = elim (push 1 rb (some x)) [
    | none ↦ none
    | some (ok, rb') ↦ some (took ok, rb')
  ]
  call rb (replaces x) = elim (push_drop_oldest 1 rb (some x)) [
    | none ↦ none
    | some (old, ok, rb') ↦ some (evicted old ok, rb')
  ]
  call rb (pops wait) = elim (pop 1 wait rb) [
    | none ↦ none
    | some (item, rb') ↦ some (popped item, rb')
  ]
  call rb (batches n) = elim (pop_batch 1 rb n) [
    | none ↦ none
    | some (items, rb') ↦ some (batch items, rb')
  ]

  pub run : RingBuffer A → List (Call A) → Option (List (Reply A))
  run rb [] = some []
  run rb (c ∷ cs) = elim (call rb c) [
    | none ↦ none
    | some (r, rb') ↦ elim (run rb' cs) [ none ↦ none | some rs ↦ some (r ∷ rs) ]
  ]

  pub call_queue : ℕ → List A → Call A → Reply A × List A
  call_queue cap q (pushes x) = let (ok, q') = Queue.push cap q x in (took ok, q')
  call_queue cap q (replaces x) =
      let (old, q') = Queue.push_drop_oldest cap q x in (evicted old true, q')
  call_queue cap q (pops wait) = let (item, q') = Queue.pop q in (popped item, q')
  call_queue cap q (batches n) = (batch (take n q), drop n q)

  pub run_queue : ℕ → List A → List (Call A) → List (Reply A)
  run_queue cap q [] = []
  run_queue cap q (c ∷ cs) = let (r, q') = call_queue cap q c in r ∷ run_queue cap q' cs

  -- One call: the queue's reply, and a ring that holds the queue's rest.
  abbrev pub Answers : RingBuffer A → List A → Call A → Type ℓ
  Answers rb q c =
      let (r, q') = call_queue rb.capacity q c in
      (rb' : RingBuffer A) × (call rb c ≡ some (r, rb'))
      × Holds rb' q'
      × (rb'.capacity ≡ rb.capacity)
      × (rb'.write_pos ≤ rb.write_pos + 1)

  call_refines :
      (rb : RingBuffer A) (q : List A) (c : Call A) → Holds rb q → HasRoom 1 rb → Answers rb q c
  unfolding call call_queue
  call_refines rb q (pushes x) h room =
      let (rb', runs, held, counts) = push_refines rb q x 0 h room in
      (rb', rw (runs, call), held, counts.same_capacity, ground arith)
  call_refines rb q (replaces x) h room =
      let (rb', runs, held, counts) = drop_oldest_refines rb q x 0 h room in
      (rb', rw (runs, call), held, counts.same_capacity, omega arith)
  call_refines rb q (pops wait) h room =
      let (rb', runs, held, counts) = pop_refines rb q wait 0 h (omega arith) in
      (rb', rw (runs, call), held, counts.same_capacity, omega arith)
  call_refines rb q (batches n) h room =
      let (rb', runs, held, counts) = pop_batch_lem rb q n 0 h (omega arith) in
      (rb', rw (runs, call), held, counts.same_capacity, omega arith)

  -- No sequence of pushes, evicting pushes, pops and batches tells a ring from the bounded queue
  -- that it holds, as long as the positions do not reach 2 ^ 64. Every call ends in one round.
  pub run_refines :
      (cs : List (Call A)) (rb : RingBuffer A) (q : List A)
      → Holds rb q
      → HasRoom (length cs) rb
      → run rb cs ≡ some (run_queue rb.capacity q cs)
  unfolding run run_queue
  run_refines [] rb q h room = refl
  run_refines (c ∷ cs) rb q h room =
      let (rb', answers, held, same, near) = call_refines rb q c h (omega arith) in
      rw (answers, run) (rw (run_refines cs rb' _ held (omega arith), run, same))
