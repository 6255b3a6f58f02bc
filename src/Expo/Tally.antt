-- ===== src/Expo/Tally.antt =====
-- How much the buckets of a range hold at the indexes that satisfy a test, with every count taken
-- back to its index.
use stats.Base.{
  ℕ, zero, suc, ◌+◌, ◌%◌, ◌<◌, ◌≡◌, refl, Bool, List, [], ◌∷◌, ◌++◌, arith, length, get_or, set,
  replicate, if◌then◌else◌,
}
use stats.Base.Int.{ℤ, pos, ◌+ℤ◌, int_laws}
use stats.Base.Word.{word, add64}
use stats.Expo.{ExpoBuckets, bump}

abbrev pub tally_from : (ℤ → Bool) → ℤ → List ℕ → ℕ
tally_from P at [] = 0
tally_from P at (c ∷ cs) = (if P at then c else 0) + tally_from P (at +ℤ pos 1) cs

abbrev pub tally : (ℤ → Bool) → ExpoBuckets → ℕ
tally P b = tally_from P b.offset b.counts

pub next_place : (at : ℤ) (i : ℕ) → at +ℤ pos 1 +ℤ pos i ≡ at +ℤ pos (suc i)
next_place at i = omega int_laws

pub first_place : (at : ℤ) → at +ℤ pos 0 ≡ at
first_place at = omega int_laws

pub tally_from-append :
    (P : ℤ → Bool) (at : ℤ) (cs ds : List ℕ)
    → tally_from P at (cs ++ ds) ≡ tally_from P at cs + tally_from P (at +ℤ pos (length cs)) ds
tally_from-append P at [] ds = rw (first_place at) (omega arith)
tally_from-append P at (c ∷ cs) ds =
    rw (← next_place at (length cs)) (omega (arith, tally_from-append P (at +ℤ pos 1) cs ds))

pub tally_from-noughts : (P : ℤ → Bool) (at : ℤ) (n : ℕ) → tally_from P at (replicate n 0) ≡ 0
tally_from-noughts P at zero = refl
tally_from-noughts P at (suc n) = ground (arith, tally_from-noughts P (at +ℤ pos 1) n)

pub tally_from-set :
    (P : ℤ → Bool) (at : ℤ) (cs : List ℕ) (i v : ℕ)
    → i < length cs
    → tally_from P at (set cs i v) + (if P (at +ℤ pos i) then get_or cs i 0 else 0)
      ≡ tally_from P at cs + (if P (at +ℤ pos i) then v else 0)
tally_from-set P at [] i v h = absurd (omega arith)
tally_from-set P at (c ∷ cs) zero v h = rw (first_place at) (omega arith)
tally_from-set P at (c ∷ cs) (suc i) v h =
    rw (← next_place at i) (omega (arith, tally_from-set P (at +ℤ pos 1) cs i v (omega arith)))

pub tally_from-bump :
    (P : ℤ → Bool) (at : ℤ) (cs : List ℕ) (i c : ℕ)
    → i < length cs
    → tally_from P at (bump cs i c) % word
      ≡ (tally_from P at cs + (if P (at +ℤ pos i) then c else 0)) % word
tally_from-bump P at cs i c h = ground (arith, tally_from-set P at cs i (add64 (get_or cs i 0) c) h)
