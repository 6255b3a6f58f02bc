-- ===== src/Ring/Release.antt =====
-- `Pop` and `TryPop` on a ring that holds a queue.
use stats.Base.{
  ℕ, zero, suc, ◌+◌, ◌-◌, ◌%◌, ◌<◌, ◌≡◌, ap, ◌∙◌, Bool, true, none, some, List, [], ◌∷◌, ◌++◌,
  arith, length, length-set, take, drop, min, append-nil, append_assoc, get_elem?,
  get_elem?-set_self, get_elem?-set_ne, dec_lt, not_le→leb, eq→==,
}
use native.Mathlib.Nat.{add-zero}
use stats.Base.Modulo.{mod_apart_start, mod_lap}
use stats.Base.Sequences.{get_elem?_outside}
use stats.Base.Word.{add64}
use stats.Queue
use stats.Ring.{
  Slot, RingBuffer, empty_slot, full_slot, slot_at, take_slot, pop, batch_loop, pop_batch,
}
use stats.Ring.Invariant.{Holds, HasRoom, Counts, slot_for, index-eq-mod, slot_at_lem}

module _ {ℓ} {A : Type ℓ} where
  -- What is left in the slots when the oldest one is given to the next lap.
  slots_released :
      (rb : RingBuffer A) (x : A) (q : List A)
      → Holds rb (x ∷ q)
      → HasRoom 0 rb
      → (j : ℕ) → j < rb.capacity
      → get_elem? (take_slot rb rb.read_pos).slots ((rb.read_pos + suc j) % rb.capacity)
        ≡ some (slot_for (rb.read_pos + suc j) (get_elem? q j))
  slots_released rb x q h room j hj =
      rw (index-eq-mod rb (x ∷ q) h rb.read_pos) (elim (dec_lt (suc j) rb.capacity) [
        | yes lt ↦
            get_elem?-set_ne rb.slots _ (mod_apart_start rb.capacity rb.read_pos j lt)
            ∙ h.slots_as (suc j) lt
        | no ge ↦
            let lap : rb.read_pos + suc j ≡ rb.read_pos + rb.capacity = omega arith in
            rw (get_elem?_outside q j (omega arith), lap, mod_lap)
              (get_elem?-set_self rb.slots _ _ (omega arith)
                ∙ ap (λ (t : ℕ). some (empty_slot t)) (omega arith))
      ])

  take_slot-Holds :
      (rb : RingBuffer A) (x : A) (q : List A)
      → Holds rb (x ∷ q)
      → HasRoom 0 rb
      → Holds (take_slot rb rb.read_pos) q
  take_slot-Holds rb x q h room = record {
    bits = h.bits;
    power = h.power;
    big = h.big;
    low_mask = h.low_mask;
    storage = length-set rb.slots _ _ ∙ h.storage;
    filled = omega arith;
    bounded = omega arith;
    added_fits = h.added_fits;
    removed_fits = omega arith;
    dropped_fits = h.dropped_fits;
    slots_as = λ j hj.
        let next : add64 rb.read_pos 1 + j ≡ rb.read_pos + suc j = omega arith in
        rw next (slots_released rb x q h room j hj);
  }

  pop_full :
      (rb : RingBuffer A) (x : A) (q : List A) (wait : Bool) (fuel : ℕ)
      → Holds rb (x ∷ q)
      → HasRoom 0 rb
      → pop (suc fuel) wait rb ≡ some (some x, take_slot rb rb.read_pos)
  unfolding pop
  pop_full rb x q wait fuel h room =
      let head : slot_at rb rb.read_pos ≡ full_slot (rb.read_pos + 1) x =
        rw add-zero at (slot_at_lem rb (x ∷ q) h 0 (omega arith)) in
      let seq : (slot_at rb rb.read_pos).seq ≡ rb.read_pos + 1 = ap (λ (s : Slot A). s.seq) head in
      let item : (slot_at rb rb.read_pos).item ≡ some x = ap (λ (s : Slot A). s.item) head in
      rw (
        not_le→leb rb.write_pos rb.read_pos (omega arith),
        not_le→leb (slot_at rb rb.read_pos).seq rb.read_pos (omega arith),
        eq→== (slot_at rb rb.read_pos).seq (add64 rb.read_pos 1) (omega arith),
        item,
      )

  pop_empty :
      (rb : RingBuffer A) (wait : Bool) (fuel : ℕ)
      → Holds rb []
      → pop (suc fuel) wait rb ≡ some (none, rb)
  unfolding pop
  pop_empty rb wait fuel h = ground arith

  -- `Pop` and `TryPop` return in their first round: the oldest item of the queue, which leaves it,
  -- or nil from an empty one.
  pub pop_refines :
      (rb : RingBuffer A) (q : List A) (wait : Bool) (fuel : ℕ)
      → Holds rb q
      → HasRoom 0 rb
      → let (item, q') = Queue.pop q in
        (rb' : RingBuffer A) × (pop (suc fuel) wait rb ≡ some (item, rb'))
        × Holds rb' q'
        × Counts rb rb' 0 (length q - length q') 0
  unfolding Queue.pop
  pop_refines rb [] wait fuel h room = (rb, pop_empty rb wait fuel h, h, omega arith)
  pop_refines rb (x ∷ q) wait fuel h room = (
    take_slot rb rb.read_pos,
    pop_full rb x q wait fuel h room,
    take_slot-Holds rb x q h room,
    omega arith,
  )

  -- What a batch is taken from after one item, in the same room.
  batch_after :
      (fuel left : ℕ) (rb : RingBuffer A) (q batch : List A)
      → Holds rb q
      → HasRoom 0 rb
      → (rb' : RingBuffer A) × (batch_loop (suc fuel) left rb batch
          ≡ some (batch ++ take left q, rb'))
        × Holds rb' (drop left q)
        × Counts rb rb' 0 (min left (length q)) 0
  unfolding batch_loop
  batch_after fuel zero rb q batch h room = (rb, rw append-nil, h, omega arith)
  batch_after fuel (suc left) rb [] batch h room =
      (rb, rw (pop_empty rb true fuel h, batch_loop, append-nil), h, omega arith)
  batch_after fuel (suc left) rb (x ∷ q) batch h room =
      let (rb', runs, held, counts) =
        batch_after fuel left (take_slot rb rb.read_pos) q (batch ++ x ∷ [])
          (take_slot-Holds rb x q h room) (omega arith) in
      (
        rb',
        rw (pop_full rb x q true fuel h room, batch_loop)
            (runs ∙ ap (λ (l : List A). some (l, rb')) (append_assoc batch (x ∷ []) (take left q))),
        held,
        omega arith,
      )

  -- `PopBatch` returns the oldest items in order, as many as were asked for or as there are, and
  -- leaves the others.
  pub pop_batch_lem :
      (rb : RingBuffer A) (q : List A) (max_items fuel : ℕ)
      → Holds rb q
      → HasRoom 0 rb
      → (rb' : RingBuffer A) × (pop_batch (suc fuel) rb max_items ≡ some (take max_items q, rb'))
        × Holds rb' (drop max_items q)
        × Counts rb rb' 0 (min max_items (length q)) 0
  unfolding pop_batch
  pop_batch_lem rb q max_items fuel h room = batch_after fuel max_items rb q [] h room
