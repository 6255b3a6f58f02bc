-- ===== src/Circuit.antt =====
-- transport/circuit.go: the circuit breaker in front of a backend.
-- `state`, `failures` and `halfOpenCount` are int32 atomics; a count stands here as its bit pattern.
-- A method runs with no other goroutine in between, so its compare-and-swaps succeed. Times are Unix
-- nanoseconds, and a method that reads the clock takes the time that it reads.
pub mod Graph
pub mod Invariant
pub mod Admission
mod Tests
use stats.Base.{
  ℕ, ◌+◌, ◌%◌, ◌^◌, Bool, true, false, Option, none, some, List, [], ◌∷◌, ltb, leb, if◌then◌else◌,
  ◌==◌,
}
use stats.Base.Word.{add32, add64, leb_int32}

pub data State : Type 0 where
  closed opened half_open : State

pub record CircuitBreaker : Type 0 where
  pub threshold : ℕ
  pub timeout : ℕ
  pub half_open_max : ℕ
  pub state : State
  pub failures : ℕ
  pub last_fail_time : ℕ
  pub half_open_count : ℕ
  pub total_success : ℕ
  pub total_failures : ℕ
  pub total_rejected : ℕ
  pub state_changes : ℕ

abbrev pub ten_seconds : ℕ
ten_seconds = 10_000_000_000

-- An argument that is not positive is `0` here.
pub new : ℕ → ℕ → CircuitBreaker
new threshold timeout = record {
  threshold = if threshold == 0 then 5 else threshold;
  timeout = if timeout == 0 then ten_seconds else timeout;
  half_open_max = 3;
  state = closed;
  failures = 0;
  last_fail_time = 0;
  half_open_count = 0;
  total_success = 0;
  total_failures = 0;
  total_rejected = 0;
  state_changes = 0;
}

abbrev count_change : CircuitBreaker → CircuitBreaker
count_change cb = record cb { state_changes = add64 cb.state_changes 1 }

-- `int32(cb.threshold)` and `int32(cb.halfOpenMax)` cut an int to its low 32 bits.
abbrev pub int32 : ℕ → ℕ
int32 n = n % 2 ^ 32

-- `time.Since(lastFail) > cb.timeout`, free of subtraction.
abbrev pub elapsed : CircuitBreaker → ℕ → Bool
elapsed cb now = ltb (cb.last_fail_time + cb.timeout) now

allow_in : State → CircuitBreaker → ℕ → Bool × CircuitBreaker
allow_in closed cb now = (true, cb)
allow_in opened cb now =
    if elapsed cb now
    then (true, record (count_change cb) { state = half_open; half_open_count = 0 })
    else (false, cb)
allow_in half_open cb now =
    let count = add32 cb.half_open_count 1 in
    (leb_int32 count (int32 cb.half_open_max), record cb { half_open_count = count })

pub allow_request : CircuitBreaker → ℕ → Bool × CircuitBreaker
unfolding allow_in
allow_request cb now = allow_in cb.state cb now

success_in : State → CircuitBreaker → CircuitBreaker
success_in half_open cb = record (count_change cb) { state = closed; failures = 0 }
success_in closed cb = record cb { failures = 0 }
success_in opened cb = cb

pub record_success : CircuitBreaker → CircuitBreaker
unfolding success_in
record_success cb = success_in cb.state (record cb { total_success = add64 cb.total_success 1 })

failure_in : State → CircuitBreaker → CircuitBreaker
failure_in half_open cb = record (count_change cb) { state = opened }
failure_in closed cb =
    if leb_int32 (int32 cb.threshold) cb.failures
    then record (count_change cb) { state = opened }
    else cb
failure_in opened cb = cb

pub record_failure : CircuitBreaker → ℕ → CircuitBreaker
unfolding failure_in
record_failure cb now = failure_in cb.state (record cb {
  total_failures = add64 cb.total_failures 1;
  last_fail_time = now;
  failures = add32 cb.failures 1;
})

pub reset : CircuitBreaker → CircuitBreaker
reset cb = record (count_change cb) { state = closed; failures = 0; half_open_count = 0 }

is_opened : State → Bool
is_opened opened = true
is_opened _ = false

pub is_open : CircuitBreaker → Bool
unfolding is_opened
is_open cb = is_opened cb.state

pub data CallError (E : Type 0) : Type 0 where
  circuit_open : CallError E
  failed : E → CallError E

-- What `Call` does with the outcome of its function.
finish : {E : Type 0} → CircuitBreaker → ℕ → Option E → Option (CallError E) × CircuitBreaker
finish cb later (some e) = (some (failed e), record_failure cb later)
finish cb later none = (none, record_success cb)

-- `Call`. The function works on a world of its caller; `now` is read before it and `later` behind it.
module _ {W E : Type 0} where
  pub call :
      CircuitBreaker → ℕ → ℕ → (W → Option E × W) → W → Option (CallError E) × CircuitBreaker × W
  unfolding finish
  call cb now later fn w =
      let (allowed, cb') = allow_request cb now in
      let (err, w') = fn w in
      let (result, cb'') = finish cb' later err in
      if allowed
      then (result, cb'', w')
      else (some circuit_open, record cb' { total_rejected = add64 cb'.total_rejected 1 }, w)

-- What can happen to a breaker, in the order in which it happens.
pub data Event : Type 0 where
  asks : ℕ → Event
  succeeds : Event
  fails : ℕ → Event
  resets : Event

pub step : CircuitBreaker → Event → CircuitBreaker
step cb (asks now) = (allow_request cb now).1
step cb succeeds = record_success cb
step cb (fails now) = record_failure cb now
step cb resets = reset cb

pub run : CircuitBreaker → List Event → CircuitBreaker
run cb [] = cb
run cb (e ∷ es) = run (step cb e) es
