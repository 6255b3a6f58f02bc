-- ===== src/Circuit/Invariant.antt =====
-- What holds of a breaker between two events.
use stats.Base.{ℕ, ◌^◌, ◌<◌, ◌≡◌, arith, List, [], ◌∷◌}
use stats.Circuit.{
  closed, CircuitBreaker, Event, asks, succeeds, fails, resets, new, allow_request, record_success,
  record_failure, reset, step, run,
}

-- The threshold fits an int32, and a closed breaker has not reached it.
pub record IsSound (cb : CircuitBreaker) : Type 0 where
  pub positive : 0 < cb.threshold
  pub narrow : cb.threshold < 2 ^ 31
  pub below : cb.state ≡ closed → cb.failures < cb.threshold
  pub pattern : cb.failures < 2 ^ 32

pub new-IsSound : (threshold timeout : ℕ) → threshold < 2 ^ 31 → IsSound (new threshold timeout)
unfolding new
new-IsSound threshold timeout h = ground arith

pub step-IsSound : (cb : CircuitBreaker) (e : Event) → IsSound cb → IsSound (step cb e)
unfolding step allow_request record_success record_failure reset
step-IsSound cb (asks now) h = ground arith
step-IsSound cb succeeds h = ground arith
step-IsSound cb (fails now) h = ground arith
step-IsSound cb resets h = ground arith

run-IsSound_from : (es : List Event) (cb : CircuitBreaker) → IsSound cb → IsSound (run cb es)
unfolding run
run-IsSound_from [] cb h = h
run-IsSound_from (e ∷ es) cb h = run-IsSound_from es (step cb e) (step-IsSound cb e h)

-- Whatever happens to a new breaker, it never stays closed with as many failures as its threshold.
pub run-IsSound :
    (es : List Event) (threshold timeout : ℕ)
    → threshold < 2 ^ 31
    → IsSound (run (new threshold timeout) es)
run-IsSound es threshold timeout h = run-IsSound_from es _ (new-IsSound threshold timeout h)
