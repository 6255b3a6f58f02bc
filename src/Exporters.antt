-- ===== src/Exporters.antt =====
-- exporters/multi.go and exporters/filtered.go: exporters made of others.
-- An exporter is what its methods answer: whether a batch, an idle export or a shutdown fails (a
-- panic is a failure, as `fanOut` makes it one). A method that the exporter lacks is `none`.
pub mod Fan
pub mod Filters
mod Tests
use stats.Base.{ℕ, Bool, true, false, not, Option, none, some, List, [], ◌∷◌, ◌++◌, if◌then◌else◌}
use stats.Base.Int.{ℤ, pos, ltb_ℤ}

pub record Exporter (M : Type 0) : Type 0 where
  pub name : List ℕ
  pub export : List M → Bool
  pub export_timeout : Option ℤ
  pub export_idle : Option Bool
  pub shutdown : Bool

pub record Multi (M : Type 0) : Type 0 where
  pub multi_name : List ℕ
  pub default_timeout : ℤ
  pub children : List (Exporter M)
  pub max_timeout : ℤ

abbrev pub timeout_or : ℤ → Option ℤ → ℤ
timeout_or default_timeout none = default_timeout
timeout_or default_timeout (some d) = d

module _ {M : Type 0} where
  abbrev pub timeout_for : Multi M → Exporter M → ℤ
  timeout_for m e = timeout_or m.default_timeout e.export_timeout

  -- The loop of `Multi`. A nil exporter is `none`.
  collect : Multi M → List (Option (Exporter M)) → Multi M
  collect m [] = m
  collect m (none ∷ es) = collect m es
  collect m (some e ∷ es) =
      let d = timeout_for m e in
      collect
        (record m {
          children = m.children ++ e ∷ [];
          max_timeout = if ltb_ℤ m.max_timeout d then d else m.max_timeout;
        })
        es

  pub new_multi : List ℕ → ℤ → List (Option (Exporter M)) → Multi M
  unfolding collect
  new_multi name default_timeout es =
      collect
        (record {
          multi_name = name;
          default_timeout = default_timeout;
          children = [];
          max_timeout = pos 0;
        })
        es

  -- The names of the children that fail, in order: the joined error is nil where there is none.
  -- `call` is what a child answers, or `none` if it is not selected.
  abbrev note_failure : Exporter M → Option Bool → List (List ℕ) → List (List ℕ)
  note_failure e none errs = errs
  note_failure e (some failed) errs = if failed then e.name ∷ errs else errs

  fan_out : (Exporter M → Option Bool) → List (Exporter M) → List (List ℕ)
  fan_out call [] = []
  fan_out call (e ∷ es) = note_failure e (call e) (fan_out call es)

  pub export_multi : Multi M → List M → List (List ℕ)
  unfolding fan_out
  export_multi m metrics = fan_out (λ e. some (e.export metrics)) m.children

  pub export_idle_multi : Multi M → List (List ℕ)
  unfolding fan_out
  export_idle_multi m = fan_out (λ e. e.export_idle) m.children

  pub shutdown_multi : Multi M → List (List ℕ)
  unfolding fan_out
  shutdown_multi m = fan_out (λ e. some e.shutdown) m.children

  abbrev export_some : Exporter M → List M → Bool
  export_some e [] = false
  export_some e (m ∷ metrics) = e.export (m ∷ metrics)

  -- `Filtered` with a filter that is not nil. The wrapper has the methods that the exporter has.
  pub filtered : Exporter M → (List M → List M) → Exporter M
  filtered e filter = record e { export = λ metrics. export_some e (filter metrics) }
