-- ===== src/Dogstatsd/Sections.antt =====
-- Lines of sections between bars, and tags between commas.
use stats.Base.{
  ℕ, ◌≡◌, ◌≢◌, ◌⊎◌, ◌<◌, refl, sym, ap, ◌∙◌, true, false, List, [], ◌∷◌, ◌++◌, append_assoc,
  append-nil, ◌==◌, All, arith, Bool-cases, inl, inr,
}
use stats.Base.Text.{
  Bytes, Lacks, cons_head, split, join, is_empty, split_whole, split-append, split-Lacks,
  split-join, join-Lacks, All-map,
}
use stats.Dogstatsd.{known_type, drop_empty, split_tags}
use stats.Dogstatsd.Format.{format_tags}

-- Every section behind a bar.
abbrev pub bars : List Bytes → Bytes
bars [] = []
bars (p ∷ ps) = b'|' ∷ (p ++ bars ps)

pub bars-append : (ps qs : List Bytes) → bars (ps ++ qs) ≡ bars ps ++ bars qs
bars-append [] qs = refl
bars-append (p ∷ ps) qs = simp (bars-append ps qs, append_assoc)

pub split-bars :
    (p : Bytes) (ps : List Bytes)
    → Lacks b'|' p
    → All (Lacks b'|') ps
    → split b'|' (p ++ bars ps) ≡ p ∷ ps
split-bars p [] h k = rw append-nil (split_whole b'|' p h)
split-bars p (q ∷ ps) h k =
    split-append b'|' p (q ++ bars ps) h ∙ ap (◌∷◌ p) (split-bars q ps k.0 k.1)

-- A tag that the parser can give: not empty, without comma and bar.
abbrev pub IsTag : Bytes → Type 0
IsTag tag = (is_empty tag ≡ false) × Lacks b',' tag × Lacks b'|' tag

abbrev pub tag_sections : List Bytes → List Bytes
tag_sections [] = []
tag_sections (tag ∷ tags) = (b'#' ∷ join b',' (tag ∷ tags)) ∷ []

pub format_tags-bars : (tags : List Bytes) → format_tags tags ≡ bars (tag_sections tags)
unfolding format_tags
format_tags-bars [] = refl
format_tags-bars (tag ∷ tags) = sym (append-nil _)

pub tag_sections-Lacks : (tags : List Bytes) → All IsTag tags → All (Lacks b'|') (tag_sections tags)
tag_sections-Lacks [] h = tt
tag_sections-Lacks (tag ∷ tags) h = (
  (
    (λ e. absurd (omega arith)),
    join-Lacks b',' b'|' (tag ∷ tags) (λ e. absurd (omega arith))
        (All-map IsTag (Lacks b'|') (tag ∷ tags) (λ x i. i.2) h),
  ),
  tt,
)

drop_empty_keeps : (tags : List Bytes) → All IsTag tags → drop_empty tags ≡ tags
drop_empty_keeps [] h = refl
drop_empty_keeps ([] ∷ tags) h = cc
drop_empty_keeps ((c ∷ tag) ∷ tags) h = ap (◌∷◌ (c ∷ tag)) (drop_empty_keeps tags h.1)

pub split_tags-join :
    (tag : Bytes) (tags : List Bytes)
    → All IsTag (tag ∷ tags)
    → split_tags (join b',' (tag ∷ tags)) ≡ tag ∷ tags
unfolding split_tags
split_tags-join tag tags h =
    ap drop_empty
      (split-join b',' tag tags (All-map IsTag (Lacks b',') (tag ∷ tags) (λ x i. i.1) h))
    ∙ drop_empty_keeps (tag ∷ tags) h

-- What holds of the parts of a text between commas.
drop_empty-IsTag :
    (ps : List Bytes) → All (Lacks b',') ps → All (Lacks b'|') ps → All IsTag (drop_empty ps)
drop_empty-IsTag [] h k = tt
drop_empty-IsTag ([] ∷ ps) h k = drop_empty-IsTag ps h.1 k.1
drop_empty-IsTag ((c ∷ p) ∷ ps) h k = ((refl, h.0, k.0), drop_empty-IsTag ps h.1 k.1)

-- The parts of a text hold no byte that is not in the text.
cons_head-keeps :
    (d c : ℕ) (ps : List Bytes) → c ≢ d → All (Lacks d) ps → All (Lacks d) (cons_head c ps)
cons_head-keeps d c [] n h = ((n, tt), tt)
cons_head-keeps d c (p ∷ ps) n h = ((n, h.0), h.1)

split_keeps : (sep d : ℕ) (s : Bytes) → Lacks d s → All (Lacks d) (split sep s)
unfolding split
split_keeps sep d [] h = (tt, tt)
split_keeps sep d (c ∷ s) h = elim (Bool-cases (c == sep)) [
  | inl e ↦ rw e (tt, split_keeps sep d s h.1)
  | inr e ↦ rw e (cons_head-keeps d c (split sep s) h.0 (split_keeps sep d s h.1))
]

pub split_tags-IsTag : (s : Bytes) → Lacks b'|' s → All IsTag (split_tags s)
unfolding split_tags
split_tags-IsTag s h =
    drop_empty-IsTag (split b',' s) (split-Lacks b',' s) (split_keeps b',' b'|' s h)

pub known_type-Lacks :
    (code : Bytes) (c : ℕ) → known_type code ≡ true → c < b'c' ⊎ b's' < c → Lacks c code
known_type-Lacks [] c h k = tt
known_type-Lacks (a ∷ []) c h k = ((λ e. ground arith), tt)
known_type-Lacks (a ∷ b ∷ []) c h k = ((λ e. ground arith), ((λ e. ground arith), tt))
known_type-Lacks (a ∷ b ∷ d ∷ s) c h k = cc
