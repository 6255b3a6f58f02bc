-- ===== src/Ring/Evict.antt =====
-- `PushDropOldest` on a ring that holds a queue.
use native.Mathlib.Nat.{add-zero}
use stats.Base.{
  ℕ, suc, ◌+◌, ◌-◌, ◌%◌, ◌<◌, ◌≡◌, sym, ap, ◌∙◌, true, Option, none, some, List, [], ◌∷◌, ◌++◌,
  arith, length, length-set, length-append, get_elem?, get_elem?-set_self, get_elem?-set_ne, dec_lt,
}
use stats.Base.Modulo.{mod_apart_start, mod_lap}
use stats.Base.Sequences.{get_elem?-append_end, get_elem?-append_other}
use stats.Base.Word.{add64}
use stats.Queue
use stats.Ring.{
  Slot, RingBuffer, pushed, full_slot, slot_at, publish, take_over, push_round, replace_oldest,
  drop_oldest_round, drop_oldest_loop, push_drop_oldest,
}
use stats.Ring.Invariant.{Holds, HasRoom, Counts, slot_for, index-eq-mod, slot_at_lem}
use stats.Ring.Refine.{push_round-pushed, publish-Holds}

module _ {ℓ} {A : Type ℓ} where
  slots_replaced :
      (rb : RingBuffer A) (y : A) (q : List A) (x : A)
      → Holds rb (y ∷ q)
      → HasRoom 1 rb
      → rb.capacity ≡ length (y ∷ q)
      → (j : ℕ) → j < rb.capacity
      → get_elem?
          (take_over rb rb.read_pos rb.write_pos x).slots
          ((rb.read_pos + suc j) % rb.capacity)
        ≡ some (slot_for (rb.read_pos + suc j) (get_elem? (q ++ x ∷ []) j))
  slots_replaced rb y q x h room full j hj =
      rw (index-eq-mod rb (y ∷ q) h rb.read_pos) (elim (dec_lt (suc j) rb.capacity) [
        | yes lt ↦
            get_elem?-set_ne rb.slots _ (mod_apart_start rb.capacity rb.read_pos j lt)
            ∙ h.slots_as (suc j) lt
            ∙ ap (λ o. some (slot_for (rb.read_pos + suc j) o))
                (sym (get_elem?-append_other q x j (omega arith)))
        | no ge ↦
            let lap : rb.read_pos + suc j ≡ rb.read_pos + rb.capacity = omega arith in
            rw (get_elem?-append_end q x j (omega arith), lap, mod_lap)
              (get_elem?-set_self rb.slots _ _ (omega arith)
                ∙ ap (λ (t : ℕ). some (full_slot t x)) (omega arith))
      ])

  take_over-Holds :
      (rb : RingBuffer A) (y : A) (q : List A) (x : A)
      → Holds rb (y ∷ q)
      → HasRoom 1 rb
      → rb.capacity ≡ length (y ∷ q)
      → Holds (take_over rb rb.read_pos rb.write_pos x) (q ++ x ∷ [])
  take_over-Holds rb y q x h room full = record {
    bits = h.bits;
    power = h.power;
    big = h.big;
    low_mask = h.low_mask;
    storage = length-set rb.slots _ _ ∙ h.storage;
    filled = omega (arith, length-append q (x ∷ []));
    bounded = omega (arith, length-append q (x ∷ []));
    added_fits = omega arith;
    removed_fits = omega arith;
    dropped_fits = omega arith;
    slots_as = λ j hj.
        let next : add64 rb.read_pos 1 + j ≡ rb.read_pos + suc j = omega arith in
        rw next (slots_replaced rb y q x h room full j hj);
  }

  round_full :
      (rb : RingBuffer A) (y : A) (q : List A) (x : A)
      → Holds rb (y ∷ q)
      → HasRoom 1 rb
      → rb.capacity ≡ length (y ∷ q)
      → drop_oldest_round rb x ≡ (pushed, some y, take_over rb rb.read_pos rb.write_pos x)
  unfolding drop_oldest_round replace_oldest
  round_full rb y q x h room full =
      let head : slot_at rb rb.read_pos ≡ full_slot (rb.read_pos + 1) y =
        rw add-zero at (slot_at_lem rb (y ∷ q) h 0 (omega arith)) in
      let seq : (slot_at rb rb.read_pos).seq ≡ rb.read_pos + 1 = ap (λ (s : Slot A). s.seq) head in
      let item : (slot_at rb rb.read_pos).item ≡ some y = ap (λ (s : Slot A). s.item) head in
      ground arith

  round_room :
      (rb : RingBuffer A) (q : List A) (x : A)
      → Holds rb q
      → HasRoom 1 rb
      → length q < rb.capacity
      → drop_oldest_round rb x ≡ (pushed, none, publish rb rb.write_pos x)
  unfolding drop_oldest_round push_round
  round_room rb q x h room lt = ground (arith, push_round-pushed rb q x h room lt)

  drop_of_pushed :
      (rb rb' : RingBuffer A) (x : A) (old : Option A) (fuel : ℕ)
      → drop_oldest_round rb x ≡ (pushed, old, rb')
      → push_drop_oldest (suc fuel) rb (some x) ≡ some (old, true, rb')
  unfolding push_drop_oldest drop_oldest_loop
  drop_of_pushed rb rb' x old fuel e = ground arith

  abbrev pub Drops : RingBuffer A → List A → A → ℕ → Type ℓ
  Drops rb q x fuel =
      let (old, q') = Queue.push_drop_oldest rb.capacity q x in
      let lost = length q + 1 - length q' in
      (rb' : RingBuffer A) × (push_drop_oldest (suc fuel) rb (some x) ≡ some (old, true, rb'))
      × Holds rb' q'
      × Counts rb rb' 1 lost lost

  evict :
      (rb : RingBuffer A) (q : List A) (x : A) (fuel : ℕ)
      → Holds rb q
      → HasRoom 1 rb
      → rb.capacity ≡ length q
      → Drops rb q x fuel
  evict rb [] x fuel h room full = absurd (omega arith)
  evict rb (y ∷ q) x fuel h room full =
      rw (Queue.drop_oldest_at_limit rb.capacity (y ∷ q) x (omega arith)) (
        take_over rb rb.read_pos rb.write_pos x,
        drop_of_pushed rb _ x (some y) fuel (round_full rb y q x h room full),
        take_over-Holds rb y q x h room full,
        omega (arith, length-append q (x ∷ [])),
      )

  -- With no other goroutine in between, `PushDropOldest` always takes the new item, in its first
  -- round; a full ring gives up its oldest item, and only that, and returns it.
  pub drop_oldest_refines :
      (rb : RingBuffer A) (q : List A) (x : A) (fuel : ℕ)
      → Holds rb q
      → HasRoom 1 rb
      → Drops rb q x fuel
  drop_oldest_refines rb q x fuel h room = elim (dec_lt (length q) rb.capacity) [
    | yes lt ↦ rw (Queue.drop_oldest_with_room rb.capacity q x lt) (
      publish rb rb.write_pos x,
      drop_of_pushed rb _ x none fuel (round_room rb q x h room lt),
      publish-Holds rb q x h room lt,
      omega (arith, length-append q (x ∷ [])),
    )
    | no ge ↦ evict rb q x fuel h room (omega arith)
  ]
