-- ===== src/Base/Utf8.antt =====
-- The runes of a Go string: `range` and `utf8.RuneCountInString`. A byte that starts no valid encoding
-- is a rune of its own.
use stats.Base.{
  ℕ, zero, suc, ◌<◌, ◌≡◌, refl, arith, Bool, true, false, ◌&&◌, [], ◌∷◌, leb, ◌==◌, if◌then◌else◌,
}
use stats.Base.Text.{Bytes}

abbrev within : ℕ → ℕ → ℕ → Bool
within lo hi c = leb lo c && leb c hi

-- Whether a text starts with that many continuation bytes.
abbrev continues : ℕ → Bytes → Bool
continues zero s = true
continues (suc n) [] = false
continues (suc n) (c ∷ s) = within 0x80 0xbf c && continues n s

-- The second byte of an encoding lies in a range that depends on the first.
abbrev second : ℕ → ℕ → Bytes → Bool
second lo hi [] = false
second lo hi (c ∷ s) = within lo hi c

abbrev length_if : ℕ → Bool → ℕ
length_if n valid = if valid then n else 0

-- How many bytes the rune has that starts with `c` and goes on with `s`, but the first.
unfoldable pub extra_bytes : ℕ → Bytes → ℕ
extra_bytes c s =
    if within 0xc2 0xdf c
    then length_if 1 (continues 1 s)
    else if c == 0xe0
    then length_if 2 (second 0xa0 0xbf s && continues 2 s)
    else if c == 0xed
    then length_if 2 (second 0x80 0x9f s && continues 2 s)
    else if within 0xe1 0xef c
    then length_if 2 (continues 2 s)
    else if c == 0xf0
    then length_if 3 (second 0x90 0xbf s && continues 3 s)
    else if within 0xf1 0xf3 c
    then length_if 3 (continues 3 s)
    else if c == 0xf4
    then length_if 3 (second 0x80 0x8f s && continues 3 s)
    else 0

within_above : (lo hi c : ℕ) → c < lo → within lo hi c ≡ false
within_above lo hi c h = ground arith

not_equal : (a c : ℕ) → c < a → (c == a) ≡ false
not_equal a c h = ground arith

-- An ASCII character is one byte.
pub extra_bytes_ascii : (c : ℕ) (s : Bytes) → c < 0x80 → extra_bytes c s ≡ 0
unfolding extra_bytes
extra_bytes_ascii c s h =
    rw
      (
        within_above 0xc2 0xdf c (omega arith),
        not_equal 0xe0 c (omega arith),
        not_equal 0xed c (omega arith),
        within_above 0xe1 0xef c (omega arith),
        not_equal 0xf0 c (omega arith),
        within_above 0xf1 0xf3 c (omega arith),
        not_equal 0xf4 c (omega arith),
      )
      refl

-- The number of runes behind the bytes that are left of one.
rune_count_from : ℕ → Bytes → ℕ
rune_count_from left [] = 0
rune_count_from (suc left) (c ∷ s) = rune_count_from left s
rune_count_from zero (c ∷ s) = suc (rune_count_from (extra_bytes c s) s)

unfoldable pub rune_count : Bytes → ℕ
unfolding rune_count_from extra_bytes
rune_count s = rune_count_from 0 s
