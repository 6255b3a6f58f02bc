-- ===== src/Ring/Refine.antt =====
-- A ring that holds a queue behaves as that queue.
use stats.Base.{
  ℕ, suc, ◌+◌, ◌%◌, ◌≤◌, ◌<◌, ◌≡◌, sym, ap, ◌∙◌, true, false, Option, some, List, [], ◌∷◌, ◌++◌,
  arith, length, length-append, length-set, get_elem?, get_elem?-set_self, get_elem?-set_ne, set,
  dec_lt, ℕ_discrete, if◌then◌else◌,
}
use stats.Base.Modulo.{mod_apart}
use stats.Base.Sequences.{get_elem?_outside, get_elem?-append_end, get_elem?-append_other}
use stats.Base.Word.{add64}
use stats.Queue
use stats.Ring.{
  Slot, RingBuffer, pushed, rejected, empty_slot, full_slot, count_drop, index, slot_at, publish,
  push_at, push_round, push_loop, push,
}
use stats.Ring.Invariant.{Holds, HasRoom, Counts, slot_for, index-eq-mod, slot_at_lem}

module _ {ℓ} {A : Type ℓ} where
  -- What a write at the writer's position leaves in the slots.
  pub slots_pushed :
      (rb : RingBuffer A) (q : List A) (x : A)
      → Holds rb q
      → HasRoom 1 rb
      → length q < rb.capacity
      → (j : ℕ) → j < rb.capacity
      → get_elem?
          (set rb.slots (index rb rb.write_pos) (full_slot (add64 rb.write_pos 1) x))
          ((rb.read_pos + j) % rb.capacity)
        ≡ some (slot_for (rb.read_pos + j) (get_elem? (q ++ x ∷ []) j))
  slots_pushed rb q x h room lt j hj = elim (ℕ_discrete j (length q)) [
    | yes e ↦ ground (
      arith,
      index-eq-mod rb q h rb.write_pos,
      get_elem?-append_end q x j e,
      get_elem?-set_self rb.slots ((rb.read_pos + j) % rb.capacity)
          (full_slot (add64 rb.write_pos 1) x),
    )
    | no ne ↦ ground (
      arith,
      index-eq-mod rb q h rb.write_pos,
      get_elem?-append_other q x j ne,
      h.slots_as j hj,
      mod_apart rb.capacity rb.read_pos (length q) j lt hj (λ e. ne (sym e)),
      get_elem?-set_ne rb.slots {i = rb.write_pos % rb.capacity}
          {j = (rb.read_pos + j) % rb.capacity} (full_slot (add64 rb.write_pos 1) x),
    )
  ]

  abbrev slot_seq : Option A → ℕ → ℕ
  slot_seq o pos = (slot_for pos o).seq

  pub push_round-pushed :
      (rb : RingBuffer A) (q : List A) (x : A)
      → Holds rb q
      → HasRoom 1 rb
      → length q < rb.capacity
      → push_round rb x ≡ (pushed, publish rb rb.write_pos x)
  unfolding push_round push_at
  push_round-pushed rb q x h room lt =
      let free : slot_at rb rb.write_pos ≡ empty_slot rb.write_pos = rw h.filled (
        slot_at_lem rb q h (length q) lt
        ∙ ap (slot_for _) (get_elem?_outside q (length q) (omega arith))) in
      let seq : (slot_at rb rb.write_pos).seq ≡ rb.write_pos = ap (λ (s : Slot A). s.seq) free in
      ground arith

  pub publish-Holds :
      (rb : RingBuffer A) (q : List A) (x : A)
      → Holds rb q
      → HasRoom 1 rb
      → length q < rb.capacity
      → Holds (publish rb rb.write_pos x) (q ++ x ∷ [])
  publish-Holds rb q x h room lt = record {
    bits = h.bits;
    power = h.power;
    big = h.big;
    low_mask = h.low_mask;
    storage = length-set rb.slots _ _ ∙ h.storage;
    filled = omega (arith, h.filled, length-append q (x ∷ []));
    bounded = omega (arith, length-append q (x ∷ []));
    added_fits = omega arith;
    removed_fits = h.removed_fits;
    dropped_fits = h.dropped_fits;
    slots_as = slots_pushed rb q x h room lt;
  }

  push_round-full :
      (rb : RingBuffer A) (q : List A) (x : A)
      → Holds rb q
      → HasRoom 1 rb
      → rb.capacity ≤ length q
      → push_round rb x ≡ (rejected, rb)
  unfolding push_round
  push_round-full rb q x h room ge = ground arith

  count_drop-Holds : (rb : RingBuffer A) (q : List A) → Holds rb q → Holds (count_drop rb) q
  count_drop-Holds rb q h = record {
    bits = h.bits;
    power = h.power;
    big = h.big;
    low_mask = h.low_mask;
    storage = h.storage;
    filled = h.filled;
    bounded = h.bounded;
    added_fits = h.added_fits;
    removed_fits = h.removed_fits;
    dropped_fits = omega arith;
    slots_as = h.slots_as;
  }

  push_of_pushed :
      (rb rb' : RingBuffer A) (x : A) (fuel : ℕ)
      → push_round rb x ≡ (pushed, rb')
      → push (suc fuel) rb (some x) ≡ some (true, rb')
  unfolding push push_loop
  push_of_pushed rb rb' x fuel e = ground arith

  push_of_rejected :
      (rb rb' : RingBuffer A) (x : A) (fuel : ℕ)
      → push_round rb x ≡ (rejected, rb')
      → push (suc fuel) rb (some x) ≡ some (false, count_drop rb')
  unfolding push push_loop
  push_of_rejected rb rb' x fuel e = ground arith

  -- `Push` ends in its first round. It takes what the bounded queue takes, refuses what that
  -- refuses, and counts either.
  pub push_refines :
      (rb : RingBuffer A) (q : List A) (x : A) (fuel : ℕ)
      → Holds rb q
      → HasRoom 1 rb
      → let (ok, q') = Queue.push rb.capacity q x in
        (rb' : RingBuffer A) × (push (suc fuel) rb (some x) ≡ some (ok, rb'))
        × Holds rb' q'
        × Counts rb rb' (if ok then 1 else 0) 0 (if ok then 0 else 1)
  push_refines rb q x fuel h room = elim (dec_lt (length q) rb.capacity) [
    | yes lt ↦ rw (Queue.push_with_room rb.capacity q x lt) (
      publish rb rb.write_pos x,
      push_of_pushed rb _ x fuel (push_round-pushed rb q x h room lt),
      publish-Holds rb q x h room lt,
      omega arith,
    )
    | no ge ↦ rw (Queue.push_at_limit rb.capacity q x (omega arith)) (
      count_drop rb,
      push_of_rejected rb _ x fuel (push_round-full rb q x h room (omega arith)),
      count_drop-Holds rb q h,
      omega arith,
    )
  ]
