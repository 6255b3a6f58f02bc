-- ===== src/Ring/Fresh.antt =====
-- `NewRingBuffer`: a fresh ring holds the empty queue.
use stats.Base.{
  ℕ, zero, suc, ◌+◌, ◌^◌, ◌≤◌, ◌<◌, ◌≡◌, refl, ap, ◌∙◌, max, some, [], arith, length, get_elem?,
  dec_lt,
}
use native.Mathlib.Nat.{mod-eq_of_lt, zero-add}
use stats.Ring.{empty_slot, fresh_slots, next_power_of_two, new}
use stats.Ring.Capacity.{next_power_of_two_lem}
use stats.Ring.Invariant.{Holds}

length-fresh_slots {ℓ} : (A : Type ℓ) (n i : ℕ) → length (fresh_slots {A = A} n i) ≡ n
unfolding fresh_slots
length-fresh_slots A zero i = refl
length-fresh_slots A (suc n) i = ap suc (length-fresh_slots A n (i + 1))

get_elem?-fresh_slots {ℓ} :
    (A : Type ℓ) (n i j : ℕ)
    → j < n
    → get_elem? (fresh_slots {A = A} n i) j ≡ some (empty_slot (i + j))
unfolding fresh_slots
get_elem?-fresh_slots A zero i j h = absurd (omega arith)
get_elem?-fresh_slots A (suc n) i zero h = ap (λ (t : ℕ). some (empty_slot t)) (omega arith)
get_elem?-fresh_slots A (suc n) i (suc j) h =
    get_elem?-fresh_slots A n (i + 1) j (omega arith)
    ∙ ap (λ (t : ℕ). some (empty_slot t)) (omega arith)

-- The capacity that a request gets is a power of two of at least 2.
capacity_power :
    (n : ℕ) → n ≤ 2 ^ 63 → (k : ℕ) × (max (next_power_of_two n) 2 ≡ 2 ^ k) × (n ≤ 2 ^ k)
capacity_power n h =
    let (k, power, small, fits, least) = next_power_of_two_lem n h in
    elim (dec_lt (2 ^ k) 2) [
      | yes p ↦ (1, omega arith, omega arith)
      | no p ↦ (k, omega arith, fits)
    ]

-- A ring made for any request that an `int` can hold is empty and valid, and has at least the
-- capacity that was asked for.
pub new-Holds {ℓ} :
    (A : Type ℓ) (n : ℕ) → n ≤ 2 ^ 63 → Holds (new {A = A} n) [] × (n ≤ (new {A = A} n).capacity)
unfolding new
new-Holds A n h =
    let (k, power, fits) = capacity_power n h in
    (
      record {
        bits = k;
        power = power;
        big = omega arith;
        low_mask = refl;
        storage = length-fresh_slots A _ 0;
        filled = omega arith;
        bounded = omega arith;
        added_fits = omega arith;
        removed_fits = omega arith;
        dropped_fits = omega arith;
        slots_as = λ j hj.
            rw (zero-add, mod-eq_of_lt hj)
              (get_elem?-fresh_slots A _ 0 j hj
                ∙ ap (λ (t : ℕ). some (empty_slot t)) (omega arith));
      },
      omega arith,
    )
