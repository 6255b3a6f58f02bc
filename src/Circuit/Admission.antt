-- ===== src/Circuit/Admission.antt =====
-- Who gets through: how many failures open the breaker, how long it stays so, and how many requests
-- try the backend again.
use stats.Base.{
  ℕ, ◌+◌, ◌≡◌, refl, true, false, arith, Option, none, some, List, [], ◌∷◌, map, All, if◌then◌else◌,
}
use mathlib.Core.Option
use stats.Base.Word.{add32, add64}
use stats.Circuit.{
  State, closed, opened, half_open, CircuitBreaker, circuit_open, failed, asks, elapsed,
  allow_request, record_success, record_failure, step, run, call, finish,
}

-- How many of the requests at the given times are allowed.
abbrev pub admitted : CircuitBreaker → List ℕ → ℕ
admitted cb [] = 0
admitted cb (t ∷ ts) =
    let (allowed, cb') = allow_request cb t in (if allowed then 1 else 0) + admitted cb' ts

abbrev to_half_open : CircuitBreaker → CircuitBreaker
to_half_open cb = record cb {
  state = half_open;
  half_open_count = 0;
  state_changes = add64 cb.state_changes 1;
}

first_probe :
    (cb : CircuitBreaker) (now : ℕ)
    → cb.state ≡ opened
    → elapsed cb now ≡ true
    → allow_request cb now ≡ (true, to_half_open cb)
unfolding allow_request
first_probe cb now h e = ground arith

refusal :
    (cb : CircuitBreaker) (t : ℕ)
    → cb.state ≡ opened
    → elapsed cb t ≡ false
    → allow_request cb t ≡ (false, cb)
unfolding allow_request
refusal cb t h e = ground arith

-- Within the timeout an open breaker refuses every request and stays as it is.
pub refuses_within_timeout :
    (ts : List ℕ) (cb : CircuitBreaker)
    → cb.state ≡ opened
    → All (λ t. elapsed cb t ≡ false) ts
    → (run cb (map asks ts) ≡ cb) × (admitted cb ts ≡ 0)
unfolding run step
refuses_within_timeout [] cb h late = (refl, refl)
refuses_within_timeout (t ∷ ts) cb h (first, late) =
    let (stays, none_admitted) = refuses_within_timeout ts cb h late in
    ground (arith, refusal cb t h first)

-- A call within the timeout does not run its function: the error is `ErrCircuitOpen`, the world is
-- as it was, and only `totalRejected` changes.
pub call_refused :
    {W E : Type 0} (cb : CircuitBreaker) (now later : ℕ) (fn : W → Option E × W) (w : W)
    → cb.state ≡ opened
    → elapsed cb now ≡ false
    → call cb now later fn w
      ≡ (some circuit_open, record cb { total_rejected = add64 cb.total_rejected 1 }, w)
unfolding call
call_refused cb now later fn w h e = ground (arith, refusal cb now h e)

abbrev pub state_after {ℓ} : {E : Type ℓ} → Option E → State
state_after none = closed
state_after (some e) = opened

-- The breaker recovers: a call behind the timeout runs its function. If that succeeds, the circuit
-- is closed and no failure is counted; if not, the circuit is open again, with a timeout from the
-- end of the call, and the error is passed on.
pub call_probes :
    {W E : Type 0} (cb : CircuitBreaker) (now later : ℕ) (fn : W → Option E × W) (w w' : W)
    (outcome : Option E)
    → cb.state ≡ opened
    → elapsed cb now ≡ true
    → fn w ≡ (outcome, w')
    → let (result, cb', w'') = call cb now later fn w in
      (w'' ≡ w')
      × (result ≡ Option.map failed outcome)
      × (cb'.state ≡ state_after outcome)
      × (cb'.failures ≡ elim outcome [ none ↦ 0 | some e ↦ add32 cb.failures 1 ])
      × (cb'.last_fail_time ≡ elim outcome [ none ↦ cb.last_fail_time | some e ↦ later ])
unfolding call finish record_success record_failure
call_probes cb now later fn w w' none h e f = ground (arith, first_probe cb now h e)
call_probes cb now later fn w w' (some x) h e f = ground (arith, first_probe cb now h e)
