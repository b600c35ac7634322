-- ===== src/Tests/Circuit.antt =====
-- Inputs for the theorems on the circuit breaker of pkg/rpcproxy/worker.go.
use indexer_go.Base.{◌≡◌, refl, ◌↔◌, true, [], ◌∷◌, some, arith}
use indexer_go.RpcProxy.Circuit.{
  CircuitBreakerConfig, CircuitBreaker, closed, open_circuit, half_open, new_circuit_breaker, allow,
  record_failure,
}
use indexer_go.RpcProxy.Circuit.Trace.{call_failure, calls}
use indexer_go.RpcProxy.Circuit.Trip.{succeeded, failed, record_all, HasStreak, record_all-open_iff}
use indexer_go.RpcProxy.Circuit.Recovery.{successes, recovery, admitted, half_open-admits_all}

abbrev limits : CircuitBreakerConfig
limits = record { max_failures = 2; reset_timeout = 30; half_open_requests = 2 }

abbrev tripped : CircuitBreaker
tripped = record {
  config = limits;
  state = open_circuit;
  failures = 2;
  successes = 0;
  last_failure = 10;
  last_state_change = 10;
}

abbrev probing : CircuitBreaker
probing = record tripped { state = half_open; last_state_change = 41 }

two_failures_trip :
    calls (new_circuit_breaker (some limits) 0) (call_failure 5 5 ∷ call_failure 10 10 ∷ [])
    ≡ tripped
unfolding calls new_circuit_breaker record_failure
two_failures_trip = refl

record_all-open_iff_example :
    ((record_all
        (new_circuit_breaker (some limits) 0)
        (failed 1 1 ∷ succeeded 2 ∷ failed 3 3 ∷ failed 4 4 ∷ [])).state
      ≡ open_circuit)
    ↔ HasStreak 2 (failed 1 1 ∷ succeeded 2 ∷ failed 3 3 ∷ failed 4 4 ∷ [])
record_all-open_iff_example =
    record_all-open_iff limits 0 (failed 1 1 ∷ succeeded 2 ∷ failed 3 3 ∷ failed 4 4 ∷ [])
      (omega arith)

recovery_example :
    let (p, ok) = allow 41 41 tripped in
    (ok ≡ true)
    × (p.state ≡ half_open)
    × ((successes p (42 ∷ 43 ∷ [])).state ≡ closed)
    × ((successes p (42 ∷ 43 ∷ [])).failures ≡ 0)
recovery_example = recovery tripped 41 41 42 (43 ∷ []) refl (omega arith) refl

half_open-admits_all_example : admitted probing ((42, 42) ∷ (43, 43) ∷ (44, 44) ∷ []) ≡ 3
half_open-admits_all_example =
    half_open-admits_all probing ((42, 42) ∷ (43, 43) ∷ (44, 44) ∷ []) refl (omega arith)
