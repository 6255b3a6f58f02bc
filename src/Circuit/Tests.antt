-- ===== src/Circuit/Tests.antt =====
-- Breakers in every state, and the theorems at them.
use stats.Base.{ℕ, suc, ◌≡◌, ◌⊎◌, arith, Bool, true, Option, some, [], ◌∷◌}
use stats.Circuit.{State, closed, opened, CircuitBreaker, asks, succeeds, fails, new, step, run}
use stats.Circuit.Graph.{Edge, step-Edge}
use stats.Circuit.Invariant.{IsSound, run-IsSound}

abbrev two_failures : CircuitBreaker
two_failures = record {
  threshold = 3;
  timeout = 1_000;
  half_open_max = 3;
  state = closed;
  failures = 2;
  last_fail_time = 50;
  half_open_count = 0;
  total_success = 0;
  total_failures = 2;
  total_rejected = 0;
  state_changes = 0;
}

abbrev tripped : CircuitBreaker
tripped = record two_failures {
  state = opened;
  failures = 3;
  last_fail_time = 70;
  state_changes = 1;
}

step-Edge_example :
    let cb' = step tripped (asks 2_000) in
    (((cb'.state ≡ opened) × (cb'.state_changes ≡ 1))
      ⊎ (Edge tripped (asks 2_000) cb'.state × (cb'.state_changes ≡ 2)))
    × ((s : State) → Edge tripped (asks 2_000) s → cb'.state ≡ s)
step-Edge_example = step-Edge tripped (asks 2_000)

run-IsSound_example :
    IsSound
      (run (new 3 1_000) (fails 10 ∷ fails 20 ∷ asks 30 ∷ fails 40 ∷ asks 5_000 ∷ succeeds ∷ []))
run-IsSound_example =
    run-IsSound (fails 10 ∷ fails 20 ∷ asks 30 ∷ fails 40 ∷ asks 5_000 ∷ succeeds ∷ []) 3 1_000
      (omega arith)

-- A backend that counts its calls, and fails.
abbrev backend : ℕ → Option Bool × ℕ
backend w = (some true, suc w)
