-- ===== src/Ring/Tests.antt =====
-- A ring of two slots: its calls, and the theorems at it.
use stats.Base.{
  ℕ, zero, suc, ◌+◌, ◌%◌, ◌<◌, ◌≡◌, refl, arith, true, false, some, List, [], ◌∷◌, get_elem?,
}
use stats.Queue
use stats.Ring.{
  Slot, RingBuffer, empty_slot, full_slot, new, push, push_drop_oldest, pop, pop_batch, len,
  is_full, is_empty, reset_stats, next_power_of_two,
}
use stats.Ring.Invariant.{Holds, Counts, slot_for}
use stats.Ring.Refine.{push_refines}
use stats.Ring.Release.{pop_refines, pop_batch_lem}
use stats.Ring.Evict.{drop_oldest_refines}
use stats.Ring.Runs.{Call, pushes, replaces, pops, batches, run, run_queue, run_refines}

abbrev fresh : RingBuffer ℕ
fresh = record {
  slots = empty_slot 0 ∷ empty_slot 1 ∷ [];
  capacity = 2;
  mask = 1;
  write_pos = 0;
  read_pos = 0;
  dropped = 0;
  added = 0;
  removed = 0;
}

new_test : new {A = ℕ} 2 ≡ fresh
unfolding new next_power_of_two stats.Ring.smear_all
new_test = refl

-- Two items, one of them in its second lap.
abbrev two_items : RingBuffer ℕ
two_items = record fresh {
  slots = full_slot 3 8 ∷ full_slot 2 7 ∷ [];
  write_pos = 3;
  read_pos = 1;
  added = 3;
  removed = 1;
}

abbrev IsSlotOf : RingBuffer ℕ → List ℕ → ℕ → Type 0
IsSlotOf rb q j =
    get_elem? rb.slots ((rb.read_pos + j) % rb.capacity)
    ≡ some (slot_for (rb.read_pos + j) (get_elem? q j))

two_items-slots : (j : ℕ) → j < 2 → IsSlotOf two_items (7 ∷ 8 ∷ []) j
two_items-slots zero h = refl
two_items-slots (suc zero) h = refl
two_items-slots (suc (suc j)) h = absurd (omega arith)

two_items-Holds : Holds two_items (7 ∷ 8 ∷ [])
two_items-Holds = record {
  bits = 1;
  power = refl;
  big = omega arith;
  low_mask = refl;
  storage = refl;
  filled = refl;
  bounded = omega arith;
  slots_as = two_items-slots;
  added_fits = omega arith;
  removed_fits = omega arith;
  dropped_fits = omega arith;
}

fresh-slots : (j : ℕ) → j < 2 → IsSlotOf fresh [] j
fresh-slots zero h = refl
fresh-slots (suc zero) h = refl
fresh-slots (suc (suc j)) h = absurd (omega arith)

fresh-Holds : Holds fresh []
fresh-Holds = record {
  bits = 1;
  power = refl;
  big = omega arith;
  low_mask = refl;
  storage = refl;
  filled = refl;
  bounded = omega arith;
  slots_as = fresh-slots;
  added_fits = omega arith;
  removed_fits = omega arith;
  dropped_fits = omega arith;
}

-- The ring is full, so the item is refused.
push_refines_example :
    (rb' : RingBuffer ℕ) × (push 1 two_items (some 9) ≡ some (false, rb'))
    × Holds rb' (7 ∷ 8 ∷ [])
    × Counts two_items rb' 0 0 1
unfolding Queue.push
push_refines_example = push_refines two_items (7 ∷ 8 ∷ []) 9 0 two_items-Holds (omega arith)

pop_refines_example :
    (rb' : RingBuffer ℕ) × (pop 1 true two_items ≡ some (some 7, rb'))
    × Holds rb' (8 ∷ [])
    × Counts two_items rb' 0 1 0
unfolding Queue.pop
pop_refines_example = pop_refines two_items (7 ∷ 8 ∷ []) true 0 two_items-Holds (omega arith)

pop_batch_example :
    (rb' : RingBuffer ℕ) × (pop_batch 1 two_items 5 ≡ some (7 ∷ 8 ∷ [], rb'))
    × Holds rb' []
    × Counts two_items rb' 0 2 0
pop_batch_example = pop_batch_lem two_items (7 ∷ 8 ∷ []) 5 0 two_items-Holds (omega arith)

drop_oldest_refines_example :
    (rb' : RingBuffer ℕ) × (push_drop_oldest 1 two_items (some 9) ≡ some (some 7, true, rb'))
    × Holds rb' (8 ∷ 9 ∷ [])
    × Counts two_items rb' 1 1 1
unfolding Queue.push_drop_oldest
drop_oldest_refines_example =
    drop_oldest_refines two_items (7 ∷ 8 ∷ []) 9 0 two_items-Holds (omega arith)

abbrev calls : List (Call ℕ)
calls = pushes 5 ∷ pushes 6 ∷ pushes 7 ∷ replaces 8 ∷ pops true ∷ batches 2 ∷ []

run_refines_example : run fresh calls ≡ some (run_queue 2 [] calls)
run_refines_example = run_refines calls fresh [] fresh-Holds (omega arith)

statistics_test : (len two_items ≡ 2) × (is_full two_items ≡ true) × (is_empty two_items ≡ false)
unfolding len is_full is_empty
statistics_test = (refl, refl, refl)
