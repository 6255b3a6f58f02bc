-- ===== src/Cardinality/Tests.antt =====
-- Tag keys, and a limit of two series.
use mathlib.Core.Logic.{◌↔◌}
use stats.Base.{ℕ, ◌+◌, ◌≤◌, ◌≡◌, refl, ap, true, false, List, [], ◌∷◌, length, ◌==◌, arith}
use stats.Cardinality.{
  MetricSeries, valid_tag_key, admit_keys, Drops, label_limit, drop, take_drop_counters, value_at,
}
use stats.Cardinality.TagKey.{IsKey, valid_tag_key_iff}
use stats.Cardinality.Series.{IsEquality, unseen}
use stats.Cardinality.Limit.{Move, arrives, records, fails, run, times, limited, idle_count}

-- "a.b1"
abbrev dotted : List ℕ
dotted = 97 ∷ 46 ∷ 98 ∷ 49 ∷ []

dotted_test :
    (valid_tag_key dotted ≡ true)
    × (valid_tag_key (97 ∷ 46 ∷ []) ≡ false)
    × (valid_tag_key (49 ∷ []) ≡ false)
unfolding valid_tag_key stats.Cardinality.valid_from
dotted_test = (refl, refl, refl)

valid_tag_key_iff_example : (valid_tag_key dotted ≡ true) ↔ IsKey dotted
valid_tag_key_iff_example = valid_tag_key_iff dotted

number-IsEquality : IsEquality ◌==◌
number-IsEquality = record { self = λ a. ground arith; sound = λ a b h. ground arith }

-- Two observations of one new series share its slot; the third series is refused.
abbrev moves : List (Move ℕ)
moves = arrives 5 ∷ arrives 5 ∷ arrives 6 ∷ arrives 7 ∷ records 5 ∷ fails 5 ∷ fails 6 ∷ []

limited_example :
    let (s, held) = run ◌==◌ 2 (record { admitted = []; count = 0; reserved = [] }, []) moves in
    (s.count ≤ 2)
    × (s.count ≡ length s.admitted + unseen ◌==◌ s.admitted s.reserved)
    × ((k : ℕ) → value_at ◌==◌ k s.reserved ≡ times ◌==◌ k held)
limited_example = limited ◌==◌ number-IsEquality 2 moves

moves_test :
    run ◌==◌ 2 (record { admitted = []; count = 0; reserved = [] }, []) moves
    ≡ (record { admitted = 5 ∷ []; count = 1; reserved = [] }, [])
unfolding run stats.Cardinality.Limit.step stats.Cardinality.reserve stats.Cardinality.commit
    stats.Cardinality.release stats.Cardinality.unreserve
moves_test = refl

idle_count_example :
    let (s, held) = run ◌==◌ 2 (record { admitted = []; count = 0; reserved = [] }, []) moves in
    s.count ≡ length s.admitted
idle_count_example = idle_count ◌==◌ number-IsEquality 2 moves (ap (λ now. now.1) moves_test)

drop_test :
    take_drop_counters
      (drop (record { pending_labels = 0; pending_series = 0; total = 0 }) label_limit 3)
    ≡ ((label_limit, 3) ∷ [], record { pending_labels = 0; pending_series = 0; total = 3 })
unfolding take_drop_counters drop
drop_test = refl
