-- ===== src/Ring/Invariant.antt =====
-- When a ring holds a queue: which sequence number and item every slot has.
use stats.Base.{
  ℕ, zero, suc, ◌+◌, ◌-◌, ◌%◌, ◌^◌, ◌≤◌, ◌<◌, ◌≡◌, Option, none, some, List, [], ◌∷◌, arith, length,
  get_elem?, get_or,
}
use stats.Base.Bits.{bit_and_mask}
use stats.Base.Word.{word, add64}
use stats.Ring.{Slot, RingBuffer, empty_slot, full_slot, index, slot_at}

module _ {ℓ} {A : Type ℓ} where
  -- The slot of position `pos`: free for its writer, or holding that writer's item.
  abbrev pub slot_for : ℕ → Option A → Slot A
  slot_for pos none = empty_slot pos
  slot_for pos (some x) = full_slot (pos + 1) x

  pub record Holds (rb : RingBuffer A) (q : List A) : Type ℓ where
    pub bits : ℕ
    pub power : rb.capacity ≡ 2 ^ bits
    pub big : 2 ≤ rb.capacity
    pub low_mask : rb.mask ≡ rb.capacity - 1
    pub storage : length rb.slots ≡ rb.capacity
    pub filled : rb.write_pos ≡ rb.read_pos + length q
    pub bounded : length q ≤ rb.capacity
    pub added_fits : rb.added < word
    pub removed_fits : rb.removed < word
    pub dropped_fits : rb.dropped < word
    pub slots_as :
        (j : ℕ)
        → j < rb.capacity
        → get_elem? rb.slots ((rb.read_pos + j) % rb.capacity)
          ≡ some (slot_for (rb.read_pos + j) (get_elem? q j))

  -- The positions are far from wrapping, so that `n` more operations do not reach 2 ^ 64.
  abbrev pub HasRoom : ℕ → RingBuffer A → Type 0
  HasRoom n rb = rb.write_pos + rb.capacity + n < word

  -- What an operation does to the statistics, and what it leaves alone.
  pub record Counts (rb rb' : RingBuffer A) (added removed dropped : ℕ) : Type ℓ where
    pub same_capacity : rb'.capacity ≡ rb.capacity
    pub writer_near : rb'.write_pos ≤ rb.write_pos + added
    pub added_by : rb'.added ≡ add64 rb.added added
    pub removed_by : rb'.removed ≡ add64 rb.removed removed
    pub dropped_by : rb'.dropped ≡ add64 rb.dropped dropped

  pub index-eq-mod :
      (rb : RingBuffer A) (q : List A) → Holds rb q → (pos : ℕ) → index rb pos ≡ pos % rb.capacity
  index-eq-mod rb q h pos = rw (h.low_mask, h.power) (bit_and_mask h.bits pos)

  -- Every access of the slots is in range.
  pub slot_in_range :
      (rb : RingBuffer A) (q : List A) → Holds rb q → (pos : ℕ) → index rb pos < length rb.slots
  slot_in_range rb q h pos = rw (index-eq-mod rb q h pos, h.storage) (omega (arith, h.big))

  get_or_of_get_elem? :
      (xs : List (Slot A)) (i : ℕ) (d s : Slot A) → get_elem? xs i ≡ some s → get_or xs i d ≡ s
  get_or_of_get_elem? [] i d s e = cc
  get_or_of_get_elem? (x ∷ xs) zero d s e = cc
  get_or_of_get_elem? (x ∷ xs) (suc i) d s e = get_or_of_get_elem? xs i d s e

  -- The slot that an operation reads at the `j`-th position from the reader.
  pub slot_at_lem :
      (rb : RingBuffer A) (q : List A) (h : Holds rb q) (j : ℕ)
      → j < rb.capacity
      → slot_at rb (rb.read_pos + j) ≡ slot_for (rb.read_pos + j) (get_elem? q j)
  slot_at_lem rb q h j lt =
      rw (index-eq-mod rb q h (rb.read_pos + j))
        (get_or_of_get_elem? rb.slots _ _ _ (h.slots_as j lt))
