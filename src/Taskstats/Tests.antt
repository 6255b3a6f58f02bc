-- ===== src/Taskstats/Tests.antt =====
-- Attributes and replies, whole and cut.
use stats.Base.{ℕ, ◌≡◌, refl, some, List, [], ◌∷◌, arith}
use stats.Taskstats.{found, find_attr, parse_taskstats_reply}
use stats.Taskstats.Total.{Ends, reply-Ends}
use stats.Taskstats.Attributes.{encode_attrs, AllFit, find_attr-encode_attrs}

-- An attribute of type 4 with five bytes, and one of type 5 with two.
abbrev two_attrs : List (ℕ × List ℕ)
two_attrs = (4, 1 ∷ 2 ∷ 3 ∷ 4 ∷ 5 ∷ []) ∷ (5, 8 ∷ 9 ∷ []) ∷ []

layout_test :
    encode_attrs two_attrs
    ≡ 9 ∷ 0 ∷ 4 ∷ 0 ∷ 1 ∷ 2 ∷ 3 ∷ 4 ∷ 5 ∷ 0 ∷ 0 ∷ 0 ∷ 6 ∷ 0 ∷ 5 ∷ 0 ∷ 8 ∷ 9 ∷ 0 ∷ 0 ∷ []
layout_test = refl

two_attrs-AllFit : AllFit two_attrs
two_attrs-AllFit = (omega arith, omega arith, (omega arith, omega arith, tt))

find_attr-encode_attrs_example : find_attr 3 (encode_attrs two_attrs) 5 ≡ some (found (8 ∷ 9 ∷ []))
find_attr-encode_attrs_example = find_attr-encode_attrs two_attrs 5 3 two_attrs-AllFit (omega arith)

reply-Ends_example : Ends (parse_taskstats_reply 4 (16 ∷ 0 ∷ 0 ∷ []) 7)
reply-Ends_example = reply-Ends (16 ∷ 0 ∷ 0 ∷ []) 7
