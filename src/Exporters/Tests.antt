-- ===== src/Exporters/Tests.antt =====
-- Three exporters, two of them with methods of their own.
use stats.Base.{ℕ, ltb, true, false, Option, none, some, List, [], ◌∷◌, length}
use stats.Base.Int.{pos}
use stats.Exporters.{Exporter}

abbrev reliable : Exporter ℕ
reliable = record {
  name = 97 ∷ [];
  export = λ metrics. false;
  export_timeout = some (pos 30);
  export_idle = none;
  shutdown = false;
}

-- Fails on more than two metrics.
abbrev narrow : Exporter ℕ
narrow = record {
  name = 98 ∷ [];
  export = λ metrics. ltb 2 (length metrics);
  export_timeout = none;
  export_idle = some true;
  shutdown = false;
}

abbrev given : List (Option (Exporter ℕ))
given = some reliable ∷ none ∷ some narrow ∷ []
