-- ===== src/RpcProxy/Worker.antt =====
-- How a worker of pkg/rpcproxy/worker.go serves one request: processRequest with its retries. The
-- handler and the wait between attempts act on the state of the world, which also says whether the
-- context of the request has ended and what time it is. MaxRetries is not negative; the wait's
-- length is its 64-bit pattern. The counters are those that Stats reads.
pub mod Attempts
use indexer_go.Base.{
  ℕ, zero, suc, ◌+◌, ◌-◌, ◌*◌, ◌%◌, ◌^◌, Bool, true, false, ◌||◌, Option, none, some, ◌==◌,
  if◌then◌else◌,
}

pub record Response (V : Type 0) : Type 0 where
  pub success : Bool
  pub latency : ℕ
  pub body : V

pub record WorkerConfig : Type 0 where
  pub max_retries : ℕ
  pub retry_delay : ℕ

-- What a request's processing meets: the handler, the wait for a duration or for the end of the
-- context, whether the context has ended, the clock, and the number of the handler's calls so far.
pub record World (E V : Type 0) : Type 0 where
  pub handler : E → E × Response V
  pub backoff : ℕ → E → E
  pub ended : E → Bool
  pub now : E → ℕ
  pub calls : E → ℕ

-- total, success and failed of the pool.
pub record Stats : Type 0 where
  pub total : ℕ
  pub success : ℕ
  pub failed : ℕ

module _ {E V : Type 0} (w : World E V) (config : WorkerConfig) where
  -- The wait before a later attempt. Both cases of its select go on to the handler.
  unfoldable pub wait : ℕ → E → E
  wait attempt e =
      if attempt == 0 then e else w.backoff (config.retry_delay * 2 ^ (attempt - 1) % 2 ^ 64) e

  -- The loop over the attempts, with the retries that are left.
  unfoldable pub attempts : ℕ → ℕ → E → E × Response V
  unfolding wait
  attempts zero attempt e = w.handler (wait attempt e)
  attempts (suc left) attempt e =
      elim ((w.handler (wait attempt e)).1.success || w.ended (w.handler (wait attempt e)).0) [
        | true ↦ w.handler (wait attempt e)
        | false ↦ attempts left (attempt + 1) (w.handler (wait attempt e)).0
      ]

  -- The counter of the outcome.
  abbrev pub count : Bool → Stats → Stats
  count true s = record { total = s.total; success = s.success + 1; failed = s.failed }
  count false s = record { total = s.total; success = s.success; failed = s.failed + 1 }

  -- A send that does not wait: no channel, a channel with room for one response, or a full one.
  abbrev pub deliver : Response V → Option (Option (Response V)) → Option (Option (Response V))
  deliver resp none = none
  deliver resp (some none) = some (some resp)
  deliver resp (some (some old)) = some (some old)

  abbrev pub timed : ℕ → Response V → Response V
  timed latency resp = record { success = resp.success; latency = latency; body = resp.body }

  -- The world, the counters and the channel after one request.
  unfoldable pub process_request :
      E → Stats → Option (Option (Response V)) → E × Stats × Option (Option (Response V))
  unfolding attempts
  process_request e s result_ch =
      let start = w.now e in
      let r = attempts config.max_retries 0 e in
      let resp = timed (w.now r.0 - start) r.1 in
      (
        r.0,
        count resp.success (record { total = s.total + 1; success = s.success; failed = s.failed }),
        deliver resp result_ch,
      )
