-- ===== src/Exporters/Fan.antt =====
-- `Multi`: which children it has, how long an export may take, and which errors come back.
use stats.Base.{
  ℕ, ◌≡◌, refl, sym, ◌∙◌, Option, none, some, List, [], ◌∷◌, ◌++◌, append-nil, append_assoc, arith,
  if◌then◌else◌,
}
use stats.Base.Int.{ℤ, pos, ◌≤ℤ◌, ltb_ℤ}
use stats.Exporters.{Exporter, Multi, timeout_for, timeout_or, collect, new_multi}

abbrev pub present : {M : Type 0} → List (Option (Exporter M)) → List (Exporter M)
present [] = []
present (none ∷ es) = present es
present (some e ∷ es) = e ∷ present es

raised : (a d : ℤ) → let r = if ltb_ℤ a d then d else a in (a ≤ℤ r) × (d ≤ℤ r)
raised a d = ground arith

module _ {M : Type 0} where
  -- The timeout covers every exporter of the list.
  abbrev pub Covers : ℤ → ℤ → List (Exporter M) → Type 0
  Covers default_timeout bound [] = Unit
  Covers default_timeout bound (e ∷ es) =
      (timeout_or default_timeout e.export_timeout ≤ℤ bound) × Covers default_timeout bound es

  collect_lem :
      (m : Multi M) (es : List (Option (Exporter M)))
      → let m' = collect m es in
        (m'.children ≡ m.children ++ present es)
        × (m.max_timeout ≤ℤ m'.max_timeout)
        × (m'.default_timeout ≡ m.default_timeout)
        × Covers m.default_timeout m'.max_timeout (present es)
  unfolding collect
  collect_lem m [] = (sym (append-nil m.children), omega arith, refl, tt)
  collect_lem m (none ∷ es) = collect_lem m es
  collect_lem m (some e ∷ es) =
      let d = timeout_for m e in
      let m1 : Multi M = record m {
        children = m.children ++ e ∷ [];
        max_timeout = if ltb_ℤ m.max_timeout d then d else m.max_timeout;
      } in
      let (children, rises, same, covered) = collect_lem m1 es in
      let (above_old, above_new) = raised m.max_timeout d in
      (
        children ∙ append_assoc m.children (e ∷ []) (present es),
        omega (arith, rises, above_old),
        same,
        (omega (arith, rises, above_new), covered),
      )

  -- `Multi` keeps the exporters that are not nil, in order, and its timeout is at least 0 and at
  -- least the timeout of each of them.
  pub new_multi_lem :
      (name : List ℕ) (default_timeout : ℤ) (es : List (Option (Exporter M)))
      → let m = new_multi name default_timeout es in
        (m.children ≡ present es)
        × (pos 0 ≤ℤ m.max_timeout)
        × Covers default_timeout m.max_timeout (present es)
  unfolding new_multi
  new_multi_lem name default_timeout es =
      let (children, rises, same, covered) =
        collect_lem
          (record {
            multi_name = name;
            default_timeout = default_timeout;
            children = [];
            max_timeout = pos 0;
          })
          es in
      (children, rises, covered)

  -- The children that fail on a batch.
  abbrev pub failing : List M → List (Exporter M) → List (List ℕ)
  failing metrics [] = []
  failing metrics (e ∷ es) =
      if e.export metrics then e.name ∷ failing metrics es else failing metrics es
