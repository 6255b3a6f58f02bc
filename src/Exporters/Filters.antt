-- ===== src/Exporters/Filters.antt =====
-- `Filtered`: what a stack of filters is.
use stats.Base.{◌≡◌, refl, sym, ap, List, [], ◌∷◌}
use mathlib.Core.Path.{fun_ext}
use stats.Exporters.{Exporter, export_some, filtered}

module _ {M : Type 0} where
  nothing_left :
      (e : Exporter M) (filter : List M → List M) (metrics : List M)
      → filter [] ≡ []
      → export_some (filtered e filter) metrics ≡ export_some e (filter metrics)
  unfolding filtered
  nothing_left e filter [] h = ap (export_some e) (sym h)
  nothing_left e filter (m ∷ metrics) h = refl

  -- Two filters, one in the other, are one filter that applies the outer one first, if the inner
  -- one makes nothing of nothing. The names, timeouts, idle exports and shutdowns are the same.
  pub filtered-filtered :
      (e : Exporter M) (inner outer : List M → List M)
      → inner [] ≡ []
      → filtered (filtered e inner) outer ≡ filtered e (λ metrics. inner (outer metrics))
  unfolding filtered
  filtered-filtered e inner outer h =
      ap (λ t. record e { export = t })
        (fun_ext (λ metrics. nothing_left e inner (outer metrics) h))
