-- ===== src/RpcProxy/Circuit/Recovery.antt =====
-- How the breaker of pkg/rpcproxy/worker.go stays open, probes and closes again.
use indexer_go.Base.{
  ℕ, suc, ◌+◌, ◌≤◌, ◌<◌, ◌≡◌, refl, true, false, List, [], ◌∷◌, All, length, arith, if◌then◌else◌,
}
use indexer_go.RpcProxy.Circuit.{
  CircuitBreaker, closed, open_circuit, half_open, allow, record_success, record_failure,
}
use indexer_go.RpcProxy.Circuit.Trace.{
  Call, call_allow, call_success, call_failure, call_reset, call, calls,
}

-- A call that is no Reset, and no Allow that reads an instant after `limit`.
abbrev pub IsQuiet : ℕ → Call → Type 0
IsQuiet limit (call_allow checked now) = checked ≤ limit
IsQuiet limit (call_success now) = Unit
IsQuiet limit (call_failure failed now) = Unit
IsQuiet limit (call_reset now) = ⊥

-- An open breaker whose reset timeout runs out at `limit`.
abbrev pub OpenUntil : ℕ → CircuitBreaker → Type 0
OpenUntil limit cb =
    (cb.state ≡ open_circuit) × (cb.last_state_change + cb.config.reset_timeout ≡ limit)

call-OpenUntil :
    (limit : ℕ) (cb : CircuitBreaker) (c : Call)
    → IsQuiet limit c
    → OpenUntil limit cb
    → OpenUntil limit (call cb c)
unfolding call allow record_success record_failure
call-OpenUntil limit cb (call_allow checked now) q o = ground arith
call-OpenUntil limit cb (call_success now) q o = ground arith
call-OpenUntil limit cb (call_failure failed now) q o = ground arith
call-OpenUntil limit cb (call_reset now) q o = absurd q

calls-OpenUntil :
    (limit : ℕ) (cb : CircuitBreaker) (cs : List Call)
    → All (IsQuiet limit) cs
    → OpenUntil limit cb
    → OpenUntil limit (calls cb cs)
unfolding calls
calls-OpenUntil limit cb [] q o = o
calls-OpenUntil limit cb (c ∷ cs) q o =
    calls-OpenUntil limit (call cb c) cs q.1 (call-OpenUntil limit cb c q.0 o)

-- Once open, the breaker refuses every request until ResetTimeout has passed since it opened,
-- whatever outcomes are recorded and however often Allow is called in between, if nobody calls
-- Reset; it is then still open, and its timeout has not moved.
pub open-refuses :
    (limit : ℕ) (cb : CircuitBreaker) (cs : List Call) (checked now : ℕ)
    → OpenUntil limit cb
    → All (IsQuiet limit) cs
    → checked ≤ limit
    → ((allow checked now (calls cb cs)).1 ≡ false) × OpenUntil limit (calls cb cs)
unfolding allow
open-refuses limit cb cs checked now o q h =
    let kept = calls-OpenUntil limit cb cs q o in (ground (arith, kept), kept)

-- RecordSuccess at each of the instants.
unfoldable pub successes : CircuitBreaker → List ℕ → CircuitBreaker
successes cb [] = cb
successes cb (now ∷ ts) = successes (record_success now cb) ts

successes-closes :
    (cb : CircuitBreaker) (t : ℕ) (ts : List ℕ)
    → cb.state ≡ half_open
    → cb.successes + suc (length ts) ≡ cb.config.half_open_requests
    → ((successes cb (t ∷ ts)).state ≡ closed) × ((successes cb (t ∷ ts)).failures ≡ 0)
unfolding successes record_success
successes-closes cb t [] h e = ground arith
successes-closes cb t (u ∷ ts) h e =
    successes-closes (record_success t cb) u ts (ground arith) (ground arith)

-- After the reset timeout an open breaker admits a request, and is closed with no failures counted
-- after HalfOpenRequests successes from then on.
pub recovery :
    (cb : CircuitBreaker) (checked now t : ℕ) (ts : List ℕ)
    → cb.state ≡ open_circuit
    → cb.last_state_change + cb.config.reset_timeout < checked
    → length (t ∷ ts) ≡ cb.config.half_open_requests
    → let (probing, admitted) = allow checked now cb in
      (admitted ≡ true)
      × (probing.state ≡ half_open)
      × ((successes probing (t ∷ ts)).state ≡ closed)
      × ((successes probing (t ∷ ts)).failures ≡ 0)
unfolding allow
recovery cb checked now t ts h passed e =
    let (probing, admitted) = allow checked now cb in
    let done = successes-closes probing t ts (ground arith) (ground arith) in
    (ground arith, ground arith, done.0, done.1)

-- How many of a series of Allow calls admit a request; each has its two clock readings.
unfoldable pub admitted : CircuitBreaker → List (ℕ × ℕ) → ℕ
admitted cb [] = 0
admitted cb ((checked, now) ∷ ts) =
    let (cb', ok) = allow checked now cb in
    let rest = admitted cb' ts in if ok then suc rest else rest

-- A half-open breaker with fewer successes than HalfOpenRequests admits every request of a series
-- of any length, however large, as long as no outcome has been recorded: HalfOpenRequests bounds
-- the successes that it counts and not the requests that it lets through.
pub half_open-admits_all :
    (cb : CircuitBreaker) (ts : List (ℕ × ℕ))
    → cb.state ≡ half_open
    → cb.successes < cb.config.half_open_requests
    → admitted cb ts ≡ length ts
unfolding admitted allow
half_open-admits_all cb [] h below = refl
half_open-admits_all cb ((checked, now) ∷ ts) h below =
    ground (arith, half_open-admits_all cb ts h below)
