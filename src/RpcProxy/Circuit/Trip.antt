-- ===== src/RpcProxy/Circuit/Trip.antt =====
-- When the breaker of pkg/rpcproxy/worker.go opens: outcomes recorded on it, against streaks.
use indexer_go.Base.{
  ℕ, zero, suc, ◌+◌, ◌-◌, ◌≤◌, ◌<◌, ◌≡◌, ◌↔◌, ◌⊎◌, inl, inr, List, [], ◌∷◌, some, arith, sym, subst,
}
use indexer_go.RpcProxy.Circuit.{
  CircuitBreakerConfig, CircuitBreaker, closed, open_circuit, new_circuit_breaker, record_success,
  record_failure,
}

-- The outcome of a request, with the clock readings of the call that records it.
pub data Outcome : Type 0 where
  succeeded : ℕ → Outcome
  failed : ℕ → ℕ → Outcome

unfoldable pub record_all : CircuitBreaker → List Outcome → CircuitBreaker
record_all cb [] = cb
record_all cb (succeeded now ∷ os) = record_all (record_success now cb) os
record_all cb (failed at now ∷ os) = record_all (record_failure at now cb) os

-- The outcomes begin with `n` failures.
abbrev pub FailuresFirst : ℕ → List Outcome → Type 0
FailuresFirst zero os = Unit
FailuresFirst (suc n) [] = ⊥
FailuresFirst (suc n) (succeeded _ ∷ os) = ⊥
FailuresFirst (suc n) (failed _ _ ∷ os) = FailuresFirst n os

-- Somewhere in the outcomes there are `n` failures in a row.
abbrev pub HasStreak : ℕ → List Outcome → Type 0
HasStreak n [] = FailuresFirst n []
HasStreak n (o ∷ os) = FailuresFirst n (o ∷ os) ⊎ HasStreak n os

record_all-open :
    (os : List Outcome) (cb : CircuitBreaker)
    → cb.state ≡ open_circuit
    → (record_all cb os).state ≡ open_circuit
unfolding record_all record_success record_failure
record_all-open [] cb h = h
record_all-open (succeeded now ∷ os) cb h =
    record_all-open os (record_success now cb) (ground arith)
record_all-open (failed at now ∷ os) cb h =
    record_all-open os (record_failure at now cb) (ground arith)

-- A breaker that is still closed, whose limit is `suc m`, with room for `n` more failures.
record Room (m n : ℕ) (cb : CircuitBreaker) : Type 0 where
  still : cb.state ≡ closed
  limit : cb.config.max_failures ≡ suc m
  room : cb.failures + n ≡ m

Room-success : (m n now : ℕ) (cb : CircuitBreaker) → Room m n cb → Room m m (record_success now cb)
unfolding record_success
Room-success m n now cb r = ground arith

Room-failure :
    (m n at now : ℕ) (cb : CircuitBreaker) → Room m (suc n) cb → Room m n (record_failure at now cb)
unfolding record_failure
Room-failure m n at now cb r = ground arith

last-failure :
    (m at now : ℕ) (cb : CircuitBreaker)
    → Room m 0 cb
    → (record_failure at now cb).state ≡ open_circuit
unfolding record_failure
last-failure m at now cb r = ground arith

FailuresFirst-le : (n k : ℕ) (os : List Outcome) → k ≤ n → FailuresFirst n os → FailuresFirst k os
FailuresFirst-le n zero os le h = tt
FailuresFirst-le zero (suc k) os le h = absurd (omega arith)
FailuresFirst-le (suc n) (suc k) [] le h = h
FailuresFirst-le (suc n) (suc k) (succeeded _ ∷ os) le h = h
FailuresFirst-le (suc n) (suc k) (failed _ _ ∷ os) le h = FailuresFirst-le n k os (omega arith) h

HasStreak-of_first : (n : ℕ) (os : List Outcome) → FailuresFirst n os → HasStreak n os
HasStreak-of_first n [] h = h
HasStreak-of_first n (o ∷ os) h = inl h

-- What opens a breaker with room for `n` more failures.
abbrev Trips : ℕ → ℕ → List Outcome → Type 0
Trips m n os = FailuresFirst (suc n) os ⊎ HasStreak (suc m) os

Trips-of_open :
    (m n : ℕ) (os : List Outcome) (cb : CircuitBreaker)
    → Room m n cb
    → (record_all cb os).state ≡ open_circuit
    → Trips m n os
unfolding record_all
Trips-of_open m n [] cb r h = absurd (ground (arith, r.still))
Trips-of_open m n (succeeded now ∷ os) cb r h =
    elim (Trips-of_open m m os _ (Room-success m n now cb r) h) [
      | inl first ↦ inr (inr (HasStreak-of_first (suc m) os first))
      | inr later ↦ inr (inr later)
    ]
Trips-of_open m zero (failed at now ∷ os) cb r h = inl tt
Trips-of_open m (suc n) (failed at now ∷ os) cb r h =
    elim (Trips-of_open m n os _ (Room-failure m n at now cb r) h) [
      | inl first ↦ inl first
      | inr later ↦ inr (inr later)
    ]

open_of_Trips :
    (m n : ℕ) (os : List Outcome) (cb : CircuitBreaker)
    → Room m n cb
    → Trips m n os
    → (record_all cb os).state ≡ open_circuit
unfolding record_all
open_of_Trips m n [] cb r (inl first) = absurd first
open_of_Trips m n [] cb r (inr streak) = absurd streak
open_of_Trips m n (succeeded now ∷ os) cb r (inl first) = absurd first
open_of_Trips m n (succeeded now ∷ os) cb r (inr (inl first)) = absurd first
open_of_Trips m n (succeeded now ∷ os) cb r (inr (inr later)) =
    open_of_Trips m m os _ (Room-success m n now cb r) (inr later)
open_of_Trips m zero (failed at now ∷ os) cb r t = record_all-open os _ (last-failure m at now cb r)
open_of_Trips m (suc n) (failed at now ∷ os) cb r (inl first) =
    open_of_Trips m n os _ (Room-failure m n at now cb r) (inl first)
open_of_Trips m (suc n) (failed at now ∷ os) cb r (inr (inl first)) =
    open_of_Trips m n os _ (Room-failure m n at now cb r)
      (inl (FailuresFirst-le m (suc n) os (omega arith) first))
open_of_Trips m (suc n) (failed at now ∷ os) cb r (inr (inr later)) =
    open_of_Trips m n os _ (Room-failure m n at now cb r) (inr later)

-- With a positive MaxFailures, a new breaker on which only outcomes are recorded, at any instants,
-- is open exactly when somewhere among them there are MaxFailures failures in a row.
pub record_all-open_iff :
    (config : CircuitBreakerConfig) (created : ℕ) (os : List Outcome)
    → 0 < config.max_failures
    → ((record_all (new_circuit_breaker (some config) created) os).state ≡ open_circuit)
      ↔ HasStreak config.max_failures os
unfolding new_circuit_breaker
record_all-open_iff config created os p =
    let m = config.max_failures - 1 in
    let e : config.max_failures ≡ suc m = omega arith in
    let start : Room m m (new_circuit_breaker (some config) created) = ground arith in
    let here : HasStreak (suc m) os → HasStreak config.max_failures os =
      subst (λ k. HasStreak k os) (sym e) in
    (
      λ h. elim (Trips-of_open m m os _ start h) [
        | inl first ↦ here (HasStreak-of_first (suc m) os first)
        | inr later ↦ here later
      ],
      λ h. open_of_Trips m m os _ start (inr (subst (λ k. HasStreak k os) e h)),
    )
