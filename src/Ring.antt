-- ===== src/Ring.antt =====
-- transport/buffer.go: the bounded ring of sequence-numbered slots between `Record` and the workers.
-- A method returns the new ring beside its result. The loads of a method and its compare-and-swaps
-- read the ring that it is given, so a method here runs with no other goroutine in between; the
-- helpers still take the positions that were loaded earlier, and answer `retry` to stale ones.
pub mod Capacity
pub mod Invariant
pub mod Refine
pub mod Release
pub mod Evict
pub mod Runs
pub mod Fresh
mod Tests
use stats.Base.{
  ℕ, zero, suc, ◌+◌, ◌-◌, max, bit_and, bit_or, Bool, true, false, ◌&&◌, Option, none, some, List,
  [], ◌∷◌, ◌++◌, ◌||◌, not, ltb, leb, ◌==◌, if◌then◌else◌, get_or, set,
}
use stats.Base.Bits.{◌>>>◌}
use stats.Base.Word.{add64, sub64}

-- `slot`. The item of type `any` is `none` where it is nil.
pub record Slot {ℓ} (A : Type ℓ) : Type ℓ where
  pub seq : ℕ
  pub item : Option A

pub record RingBuffer {ℓ} (A : Type ℓ) : Type ℓ where
  pub slots : List (Slot A)
  pub capacity : ℕ
  pub mask : ℕ
  pub write_pos : ℕ
  pub read_pos : ℕ
  pub dropped : ℕ
  pub added : ℕ
  pub removed : ℕ

pub data Attempt : Type 0 where
  retry pushed rejected : Attempt

-- `n |= n >> k`
smear : ℕ → ℕ → ℕ
smear k n = bit_or n (n >>> k)

smear_all : ℕ → ℕ
unfolding smear
smear_all n = smear 32 (smear 16 (smear 8 (smear 4 (smear 2 (smear 1 n)))))

-- `n--` runs only at `n != 0`; `n++` wraps.
pub next_power_of_two : ℕ → ℕ
next_power_of_two n = if n == 0 then 1 else add64 (smear_all (n - 1)) 1

module _ {ℓ} {A : Type ℓ} where
  abbrev pub empty_slot : ℕ → Slot A
  empty_slot i = record { seq = i; item = none }

  abbrev pub full_slot : ℕ → A → Slot A
  full_slot i x = record { seq = i; item = some x }

  -- `for i := range slots { slots[i].seq.Store(uint64(i)) }`, from index `i` on.
  fresh_slots : ℕ → ℕ → List (Slot A)
  fresh_slots zero i = []
  fresh_slots (suc n) i = empty_slot i ∷ fresh_slots n (i + 1)

  -- `max(capacity, 0)` of the `int` argument is the number that stands here.
  pub new : ℕ → RingBuffer A
  unfolding fresh_slots
  new requested =
      let count = max (next_power_of_two requested) 2 in
      record {
        slots = fresh_slots count 0;
        capacity = count;
        mask = count - 1;
        write_pos = 0;
        read_pos = 0;
        dropped = 0;
        added = 0;
        removed = 0;
      }

  -- `rb.slots[pos & rb.mask]`; a read out of range would panic (`Invariant.slot_in_range`).
  abbrev pub index : RingBuffer A → ℕ → ℕ
  index rb pos = bit_and pos rb.mask

  abbrev pub slot_at : RingBuffer A → ℕ → Slot A
  slot_at rb pos = get_or rb.slots (index rb pos) (empty_slot 0)

  abbrev pub store_slot : RingBuffer A → ℕ → Slot A → List (Slot A)
  store_slot rb pos s = set rb.slots (index rb pos) s

  abbrev pub publish : RingBuffer A → ℕ → A → RingBuffer A
  publish rb pos x = record rb {
    write_pos = add64 pos 1;
    slots = store_slot rb pos (full_slot (add64 pos 1) x);
    added = add64 rb.added 1;
  }

  pub push_at : RingBuffer A → ℕ → A → Attempt × RingBuffer A
  push_at rb pos x =
      let seq = (slot_at rb pos).seq in
      if ltb seq pos
      then (rejected, rb)
      else if seq == pos && rb.write_pos == pos
      then (pushed, publish rb pos x)
      else (retry, rb)

  -- The statements of `replaceOldest` behind its two swaps.
  abbrev pub take_over : RingBuffer A → ℕ → ℕ → A → RingBuffer A
  take_over rb read write x = record rb {
    read_pos = add64 read 1;
    write_pos = add64 write 1;
    slots = store_slot rb read (full_slot (add64 write 1) x);
    removed = add64 rb.removed 1;
    dropped = add64 rb.dropped 1;
    added = add64 rb.added 1;
  }

  -- The first swap marks the slot unpublished; where the second fails, the mark stays.
  pub replace_oldest : RingBuffer A → ℕ → ℕ → A → Attempt × Option A × RingBuffer A
  replace_oldest rb read write x =
      let s = slot_at rb read in
      if leb s.seq read
      then (rejected, none, rb)
      else if not (s.seq == add64 read 1) || not (write == add64 read rb.capacity)
      then (retry, none, rb)
      else if rb.read_pos == read
      then (pushed, s.item, take_over rb read write x)
      else (retry, none, record rb { slots = store_slot rb read (record s { seq = read }) })

  abbrev pub count_drop : RingBuffer A → RingBuffer A
  count_drop rb = record rb { dropped = add64 rb.dropped 1 }

  -- One round of the loop of `Push`.
  pub push_round : RingBuffer A → A → Attempt × RingBuffer A
  push_round rb x =
      if ltb (sub64 rb.write_pos rb.read_pos) rb.capacity
      then push_at rb rb.write_pos x
      else (rejected, rb)

  -- A loop runs on fuel; `none` means that the fuel ran out.
  pub push_loop : ℕ → RingBuffer A → A → Option (Bool × RingBuffer A)
  push_loop zero rb x = none
  push_loop (suc fuel) rb x =
      let (result, rb') = push_round rb x in
      elim result [
        | pushed ↦ some (true, rb')
        | rejected ↦ some (false, count_drop rb')
        | retry ↦ push_loop fuel rb' x
      ]

  pub push : ℕ → RingBuffer A → Option A → Option (Bool × RingBuffer A)
  push fuel rb none = some (false, rb)
  push fuel rb (some x) = push_loop fuel rb x

  abbrev pub no_eviction : Attempt × RingBuffer A → Attempt × Option A × RingBuffer A
  no_eviction (result, rb) = (result, none, rb)

  pub drop_oldest_round : RingBuffer A → A → Attempt × Option A × RingBuffer A
  drop_oldest_round rb x =
      if ltb (sub64 rb.write_pos rb.read_pos) rb.capacity
      then no_eviction (push_at rb rb.write_pos x)
      else replace_oldest rb rb.read_pos rb.write_pos x

  -- Beside the new ring, `evicted` and `ok`.
  pub drop_oldest_loop : ℕ → RingBuffer A → A → Option (Option A × Bool × RingBuffer A)
  drop_oldest_loop zero rb x = none
  drop_oldest_loop (suc fuel) rb x =
      let (result, evicted, rb') = drop_oldest_round rb x in
      elim result [
        | pushed ↦ some (evicted, true, rb')
        | rejected ↦ some (none, false, count_drop rb')
        | retry ↦ drop_oldest_loop fuel rb' x
      ]

  pub push_drop_oldest : ℕ → RingBuffer A → Option A → Option (Option A × Bool × RingBuffer A)
  push_drop_oldest fuel rb none = some (none, false, rb)
  push_drop_oldest fuel rb (some x) = drop_oldest_loop fuel rb x

  abbrev pub take_slot : RingBuffer A → ℕ → RingBuffer A
  take_slot rb pos = record rb {
    read_pos = add64 pos 1;
    slots = store_slot rb pos (empty_slot (add64 pos rb.capacity));
    removed = add64 rb.removed 1;
  }

  -- `pop(waitForWriter)`: `Pop` waits for a writer that has claimed its slot, `TryPop` does not.
  -- The position was loaded in the same round, so the swap of `readPos` succeeds.
  pub pop : ℕ → Bool → RingBuffer A → Option (Option A × RingBuffer A)
  pop zero wait rb = none
  pop (suc fuel) wait rb =
      let pos = rb.read_pos in
      let s = slot_at rb pos in
      let again = pop fuel wait rb in
      if leb rb.write_pos pos
      then some (none, rb)
      else if leb s.seq pos
      then if not wait then some (none, rb) else again
      else if s.seq == add64 pos 1
      then some (s.item, take_slot rb pos)
      else again

  -- `for i := 0; i < maxItems; i++`: the rounds left, and the batch so far.
  batch_loop : ℕ → ℕ → RingBuffer A → List A → Option (List A × RingBuffer A)
  batch_loop fuel zero rb batch = some (batch, rb)
  batch_loop fuel (suc left) rb batch = elim (pop fuel true rb) [
    | none ↦ none
    | some (none, rb') ↦ some (batch, rb')
    | some (some x, rb') ↦ batch_loop fuel left rb' (batch ++ x ∷ [])
  ]

  pub pop_batch : ℕ → RingBuffer A → ℕ → Option (List A × RingBuffer A)
  unfolding batch_loop
  pop_batch fuel rb max_items = batch_loop fuel max_items rb []

  pub len : RingBuffer A → ℕ
  len rb = if ltb rb.write_pos rb.read_pos then 0 else sub64 rb.write_pos rb.read_pos

  pub is_full : RingBuffer A → Bool
  is_full rb = leb rb.capacity (sub64 rb.write_pos rb.read_pos)

  pub is_empty : RingBuffer A → Bool
  unfolding len
  is_empty rb = len rb == 0

  pub reset_stats : RingBuffer A → RingBuffer A
  reset_stats rb = record rb { dropped = 0; added = 0; removed = 0 }
