-- ===== src/RpcProxy/Circuit/Trace.antt =====
-- Sequences of calls on one circuit breaker, and what every sequence keeps.
use indexer_go.Base.{ℕ, ◌<◌, ◌≡◌, List, [], ◌∷◌, some, arith}
use indexer_go.RpcProxy.Circuit.{
  CircuitBreakerConfig, CircuitBreaker, closed, half_open, new_circuit_breaker, allow,
  record_success, record_failure, reset,
}

-- A call of one of the four methods that change the state, with its readings of the clock.
pub data Call : Type 0 where
  call_allow : ℕ → ℕ → Call
  call_success : ℕ → Call
  call_failure : ℕ → ℕ → Call
  call_reset : ℕ → Call

unfoldable pub call : CircuitBreaker → Call → CircuitBreaker
call cb (call_allow checked now) = (allow checked now cb).0
call cb (call_success now) = record_success now cb
call cb (call_failure failed now) = record_failure failed now cb
call cb (call_reset now) = reset now cb

unfoldable pub calls : CircuitBreaker → List Call → CircuitBreaker
unfolding call
calls cb [] = cb
calls cb (c ∷ cs) = calls (call cb c) cs

-- A closed breaker is below the failure limit and a half-open one below the success limit.
pub record IsValid (config : CircuitBreakerConfig) (cb : CircuitBreaker) : Type 0 where
  pub configured : cb.config ≡ config
  pub closed_below : cb.state ≡ closed → cb.failures < config.max_failures
  pub half_open_below : cb.state ≡ half_open → cb.successes < config.half_open_requests

call-IsValid :
    (config : CircuitBreakerConfig) (cb : CircuitBreaker) (c : Call)
    → 0 < config.max_failures
    → 0 < config.half_open_requests
    → IsValid config cb
    → IsValid config (call cb c)
unfolding call allow record_success record_failure reset
call-IsValid config cb (call_allow checked now) p q v = ground arith
call-IsValid config cb (call_success now) p q v = ground arith
call-IsValid config cb (call_failure failed now) p q v = ground arith
call-IsValid config cb (call_reset now) p q v = ground arith

circuit-IsValid_from :
    (config : CircuitBreakerConfig) (cb : CircuitBreaker) (cs : List Call)
    → 0 < config.max_failures
    → 0 < config.half_open_requests
    → IsValid config cb
    → IsValid config (calls cb cs)
unfolding calls
circuit-IsValid_from config cb [] p q v = v
circuit-IsValid_from config cb (c ∷ cs) p q v =
    circuit-IsValid_from config (call cb c) cs p q (call-IsValid config cb c p q v)

-- With both limits positive, after any sequence of Allow, RecordSuccess, RecordFailure and Reset
-- calls on a new breaker, at any instants, a closed breaker has counted fewer failures than
-- MaxFailures, a half-open one fewer successes than HalfOpenRequests, and the configuration is
-- unchanged.
pub circuit-IsValid :
    (config : CircuitBreakerConfig) (now : ℕ) (cs : List Call)
    → 0 < config.max_failures
    → 0 < config.half_open_requests
    → IsValid config (calls (new_circuit_breaker (some config) now) cs)
unfolding new_circuit_breaker
circuit-IsValid config now cs p q = circuit-IsValid_from config _ cs p q (ground arith)
