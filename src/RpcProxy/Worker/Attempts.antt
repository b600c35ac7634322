-- ===== src/RpcProxy/Worker/Attempts.antt =====
-- How often a worker calls the handler, and what it reports.
use indexer_go.Base.{
  ℕ, zero, suc, ◌+◌, ◌-◌, ◌≤◌, ◌<◌, ◌≡◌, refl, ◌∙◌, Bool, true, false, ◌||◌, none, some, arith,
  ◌==◌, Bool-cases, inl, inr,
}
use indexer_go.RpcProxy.Worker.{
  Response, WorkerConfig, World, Stats, wait, attempts, process_request, count, timed,
}

module _ {E V : Type 0} (w : World E V) (config : WorkerConfig) where
  attempts_stop :
      (left attempt : ℕ) (e : E)
      → ((w.handler (wait w config attempt e)).1.success
          || w.ended (w.handler (wait w config attempt e)).0)
        ≡ true
      → attempts w config (suc left) attempt e ≡ w.handler (wait w config attempt e)
  unfolding attempts
  attempts_stop left attempt e h = rw (h, attempts) refl

  attempts_go :
      (left attempt : ℕ) (e : E)
      → ((w.handler (wait w config attempt e)).1.success
          || w.ended (w.handler (wait w config attempt e)).0)
        ≡ false
      → attempts w config (suc left) attempt e
        ≡ attempts w config left (attempt + 1) (w.handler (wait w config attempt e)).0
  unfolding attempts
  attempts_go left attempt e h = rw (h, attempts) refl

  module _ (counted : (e : E) → w.calls (w.handler e).0 ≡ w.calls e + 1)
      (waits : (n : ℕ) (e : E) → w.calls (w.backoff n e) ≡ w.calls e) where
    calls-wait : (attempt : ℕ) (e : E) → w.calls (wait w config attempt e) ≡ w.calls e
    unfolding wait
    calls-wait attempt e = elim (Bool-cases (attempt == 0)) [
      | inl first ↦ rw (first, wait) refl
      | inr later ↦ rw (later, wait) (waits _ e)
    ]

    attempts_lem :
        (left attempt : ℕ) (e : E)
        → let r = attempts w config left attempt e in
          (w.calls e + 1 ≤ w.calls r.0)
          × (w.calls r.0 ≤ w.calls e + left + 1)
          × ((r.1.success || w.ended r.0) ≡ false → w.calls r.0 ≡ w.calls e + left + 1)
    unfolding attempts
    attempts_lem zero attempt e =
        let one = counted (wait w config attempt e) in
        let same = calls-wait attempt e in (omega arith, omega arith, λ h. omega arith)
    attempts_lem (suc left) attempt e =
        let one = counted (wait w config attempt e) in
        let same = calls-wait attempt e in
        elim (Bool-cases (
          (w.handler (wait w config attempt e)).1.success
          || w.ended (w.handler (wait w config attempt e)).0)) [
            | inl stop ↦
                rw (attempts_stop left attempt e stop)
                  (omega arith, omega arith, λ h. absurd (ground (arith, h, stop)))
            | inr go ↦
                let ih = attempts_lem left (attempt + 1) (w.handler (wait w config attempt e)).0 in
                rw (attempts_go left attempt e go)
                  (omega (arith, ih.0), omega (arith, ih.1), λ h. omega (arith, ih.2 h))
          ]

count_lem :
    {E V : Type 0} (w : World E V) (config : WorkerConfig) (ok : Bool) (s : Stats)
    → let t = count w config ok s in
      (t.total ≡ s.total)
      × (t.success + t.failed ≡ s.success + s.failed + 1)
      × (ok ≡ true → t.success ≡ s.success + 1)
      × (ok ≡ false → t.failed ≡ s.failed + 1)
count_lem w config true s = (refl, omega arith, λ e. refl, λ e. absurd (ground arith))
count_lem w config false s = (refl, omega arith, λ e. absurd (ground arith), λ e. refl)

-- Where each call of the handler is counted and a wait makes none, a worker calls the handler at
-- least once and at most MaxRetries + 1 times for one request, and MaxRetries + 1 times if the
-- request fails although its context has not ended. It adds one to the total and one to either
-- the successes or the failures, as the last response says, and sends that response, with the
-- time that it took, to a channel that is empty.
pub process_request_lem :
    {E V : Type 0} (w : World E V) (config : WorkerConfig)
    → ((e : E) → w.calls (w.handler e).0 ≡ w.calls e + 1)
    → ((n : ℕ) (e : E) → w.calls (w.backoff n e) ≡ w.calls e)
    → (e : E) (s : Stats)
    → let r = process_request w config e s (some none) in
      (w.calls e + 1 ≤ w.calls r.0)
      × (w.calls r.0 ≤ w.calls e + config.max_retries + 1)
      × (r.1.total ≡ s.total + 1)
      × (r.1.success + r.1.failed ≡ s.success + s.failed + 1)
      × ((resp : Response V) × (r.2 ≡ some (some resp))
          × (resp.latency ≡ w.now r.0 - w.now e)
          × (resp.success ≡ true → r.1.success ≡ s.success + 1)
          × (resp.success ≡ false → r.1.failed ≡ s.failed + 1)
          × ((resp.success || w.ended r.0) ≡ false
              → w.calls r.0 ≡ w.calls e + config.max_retries + 1))
unfolding process_request
process_request_lem w config counted waits e s =
    let tries = attempts_lem w config counted waits config.max_retries 0 e in
    let r = attempts w config config.max_retries 0 e in
    let counts =
      count_lem w config r.1.success
        (record { total = s.total + 1; success = s.success; failed = s.failed }) in
    (
      tries.0,
      tries.1,
      counts.0,
      counts.1,
      (timed w config (w.now r.0 - w.now e) r.1, refl, refl, counts.2, counts.3, tries.2),
    )

-- A request whose first call fails in a context that has not ended is retried even if the context
-- ends during the wait: where an ended context stays ended, the handler is called a second time,
-- in the ended context, and its response, not the error of the context, is the last one.
pub ended-retries :
    {E V : Type 0} (w : World E V) (config : WorkerConfig)
    → ((e : E) → w.ended e ≡ true → w.ended (w.handler e).0 ≡ true)
    → (e : E) → 0 < config.max_retries
    → (w.handler e).1.success ≡ false
    → w.ended (w.handler e).0 ≡ false
    → w.ended (wait w config 1 (w.handler e).0) ≡ true
    → attempts w config config.max_retries 0 e ≡ w.handler (wait w config 1 (w.handler e).0)
unfolding wait attempts
ended-retries w config stays e more bad live over = go config.max_retries more
  where
    second :
        (left : ℕ)
        → attempts w config left 1 (w.handler e).0 ≡ w.handler (wait w config 1 (w.handler e).0)
    second left =
        elim left
          as (λ n.
            attempts w config n 1 (w.handler e).0 ≡ w.handler (wait w config 1 (w.handler e).0)) [
              | zero ↦ refl
              | suc n ↦
                  let over_after = stays (wait w config 1 (w.handler e).0) over in
                  attempts_stop w config n 1 (w.handler e).0 (ground (arith, over_after))
            ]

    go :
        (left : ℕ)
        → 0 < left
        → attempts w config left 0 e ≡ w.handler (wait w config 1 (w.handler e).0)
    go left =
        elim left
          as (λ n. 0 < n → attempts w config n 0 e ≡ w.handler (wait w config 1 (w.handler e).0)) [
            | zero ↦ λ p. absurd (omega arith)
            | suc n ↦ λ p. attempts_go w config n 0 e (ground (arith, bad, live)) ∙ second n
          ]
