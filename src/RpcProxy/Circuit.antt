-- ===== src/RpcProxy/Circuit.antt =====
-- CircuitBreaker of pkg/rpcproxy/worker.go with its configuration (pkg/rpcproxy/types.go).
-- Instants are nanoseconds since the breaker's process started; each reading of the clock is an
-- argument. The counters are plain numbers (2^63 calls would be needed to wrap an int). Negative
-- limits and timeouts are left out.
pub mod Trace
pub mod Trip
pub mod Recovery
use indexer_go.Base.{
  ℕ, ◌+◌, ◌-◌, ◌*◌, Bool, true, false, Option, none, some, ltb, leb, if◌then◌else◌,
}

pub record CircuitBreakerConfig : Type 0 where
  pub max_failures : ℕ
  pub reset_timeout : ℕ
  pub half_open_requests : ℕ

-- One second in nanoseconds.
abbrev pub second : ℕ
second = 1_000_000_000

unfoldable pub default_circuit_breaker_config : CircuitBreakerConfig
default_circuit_breaker_config = record {
  max_failures = 5;
  reset_timeout = 30 * second;
  half_open_requests = 3;
}

pub data CircuitState : Type 0 where
  closed open_circuit half_open : CircuitState

pub record CircuitBreaker : Type 0 where
  pub config : CircuitBreakerConfig
  pub state : CircuitState
  pub failures : ℕ
  pub successes : ℕ
  pub last_failure : ℕ
  pub last_state_change : ℕ

-- NewCircuitBreaker; a nil configuration is `none`.
unfoldable pub new_circuit_breaker : Option CircuitBreakerConfig → ℕ → CircuitBreaker
unfolding default_circuit_breaker_config
new_circuit_breaker config now = record {
  config = elim config [ none ↦ default_circuit_breaker_config | some c ↦ c ];
  state = closed;
  failures = 0;
  successes = 0;
  last_failure = 0;
  last_state_change = now;
}

-- The switch of Allow: `checked` is the instant that time.Since reads, `now` the one stored.
unfoldable pub allow_in : CircuitState → ℕ → ℕ → CircuitBreaker → CircuitBreaker × Bool
allow_in closed checked now cb = (cb, true)
allow_in open_circuit checked now cb =
    if ltb cb.config.reset_timeout (checked - cb.last_state_change)
    then (record cb { state = half_open; successes = 0; last_state_change = now }, true)
    else (cb, false)
allow_in half_open checked now cb = (cb, ltb cb.successes cb.config.half_open_requests)

unfoldable pub allow : ℕ → ℕ → CircuitBreaker → CircuitBreaker × Bool
unfolding allow_in
allow checked now cb = allow_in cb.state checked now cb

-- The half-open branch of RecordSuccess.
unfoldable pub count_success : CircuitState → ℕ → CircuitBreaker → CircuitBreaker
count_success half_open now cb =
    let counted = record cb { successes = cb.successes + 1 } in
    if leb counted.config.half_open_requests counted.successes
    then record counted { state = closed; last_state_change = now }
    else counted
count_success _ now cb = cb

unfoldable pub record_success : ℕ → CircuitBreaker → CircuitBreaker
unfolding count_success
record_success now cb = count_success cb.state now (record cb { failures = 0 })

-- The tests that end RecordFailure.
unfoldable pub trip : CircuitState → ℕ → CircuitBreaker → CircuitBreaker
trip closed now cb =
    if leb cb.config.max_failures cb.failures
    then record cb { state = open_circuit; last_state_change = now }
    else cb
trip half_open now cb = record cb { state = open_circuit; last_state_change = now }
trip open_circuit now cb = cb

-- `failed` is the instant of the failure, `now` that of the state change.
unfoldable pub record_failure : ℕ → ℕ → CircuitBreaker → CircuitBreaker
unfolding trip
record_failure failed now cb =
    trip cb.state now (record cb { failures = cb.failures + 1; last_failure = failed })

unfoldable pub reset : ℕ → CircuitBreaker → CircuitBreaker
reset now cb = record cb { state = closed; failures = 0; successes = 0; last_state_change = now }
