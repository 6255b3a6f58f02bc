-- ===== src/Circuit/Graph.antt =====
-- The transition diagram of the breaker, with the condition of each edge.
use stats.Base.{◌⊎◌, inr, ℕ, ◌≡◌, refl, true, arith}
use stats.Base.Word.{add32, add64, leb_int32}
use stats.Circuit.{
  State, closed, opened, half_open, CircuitBreaker, Event, asks, succeeds, fails, resets, elapsed,
  int32, allow_request, record_success, record_failure, reset, step,
}

-- From a breaker, by an event, to a state. The staying edges name what they need, too.
pub data Edge (cb : CircuitBreaker) : Event → State → Type 0 where
  trips :
      (now : ℕ)
      → cb.state ≡ closed
      → leb_int32 (int32 cb.threshold) (add32 cb.failures 1) ≡ true
      → Edge cb (fails now) opened
  probes : (now : ℕ) → cb.state ≡ opened → elapsed cb now ≡ true → Edge cb (asks now) half_open
  recovers : cb.state ≡ half_open → Edge cb succeeds closed
  relapses : (now : ℕ) → cb.state ≡ half_open → Edge cb (fails now) opened
  resetting : Edge cb resets closed

ruleset edges = (trips, probes, recovers, relapses, resetting)

step_along :
    (cb : CircuitBreaker) (e : Event)
    → let cb' = step cb e in
      ((cb'.state ≡ cb.state) × (cb'.state_changes ≡ cb.state_changes))
      ⊎ (Edge cb e cb'.state × (cb'.state_changes ≡ add64 cb.state_changes 1))
unfolding step allow_request record_success record_failure reset
step_along cb (asks now) = grind (arith, edges)
step_along cb succeeds = grind (arith, edges)
step_along cb (fails now) = grind (arith, edges)
step_along cb resets = inr (resetting, refl)

takes-Edge : (cb : CircuitBreaker) (e : Event) (s : State) → Edge cb e s → (step cb e).state ≡ s
unfolding step allow_request record_success record_failure reset
takes-Edge cb e s (trips now c t) = ground arith
takes-Edge cb e s (probes now c t) = ground arith
takes-Edge cb e s (recovers c) = ground arith
takes-Edge cb e s (relapses now c) = ground arith
takes-Edge cb e s resetting = refl

-- An event moves the breaker along an edge of the diagram and is counted in `stateChanges`, or it
-- leaves both the state and the count; and an edge whose condition holds is taken.
pub step-Edge :
    (cb : CircuitBreaker) (e : Event)
    → let cb' = step cb e in
      (((cb'.state ≡ cb.state) × (cb'.state_changes ≡ cb.state_changes))
        ⊎ (Edge cb e cb'.state × (cb'.state_changes ≡ add64 cb.state_changes 1)))
      × ((s : State) → Edge cb e s → cb'.state ≡ s)
step-Edge cb e = (step_along cb e, takes-Edge cb e)
