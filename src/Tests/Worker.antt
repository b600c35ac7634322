-- ===== src/Tests/Worker.antt =====
-- Inputs for the theorems on the workers of pkg/rpcproxy/worker.go.
use indexer_go.Base.{
  ℕ, ◌+◌, ◌-◌, ◌*◌, ◌≤◌, ◌≡◌, refl, Bool, true, false, ◌||◌, none, some, arith, leb,
}
use indexer_go.RpcProxy.Worker.{
  Response, WorkerConfig, World, Stats, wait, attempts, process_request,
}
use indexer_go.RpcProxy.Worker.Attempts.{process_request_lem, ended-retries}

-- A world that is the number of calls and whether the context has ended; the third call
-- succeeds, and a wait ends the context or not.
abbrev node : Bool → World (ℕ × Bool) ℕ
node tired = record {
  handler = λ (n, over). ((n + 1, over), record { success = leb 2 n; latency = 0; body = n });
  backoff = λ d (n, over). (n, over || tired);
  ended = λ (n, over). over;
  now = λ (n, over). 10 * n;
  calls = λ (n, over). n;
}

abbrev twice : WorkerConfig
twice = record { max_retries = 3; retry_delay = 5 }

abbrev fresh : Stats
fresh = record { total = 7; success = 4; failed = 3 }

process_request_lem_example :
    let r = process_request (node false) twice (0, false) fresh (some none) in
    (1 ≤ r.0.0)
    × (r.0.0 ≤ 4)
    × (r.1.total ≡ 8)
    × (r.1.success + r.1.failed ≡ 8)
    × ((resp : Response ℕ) × (r.2 ≡ some (some resp))
        × (resp.latency ≡ 10 * r.0.0 - 0)
        × (resp.success ≡ true → r.1.success ≡ 5)
        × (resp.success ≡ false → r.1.failed ≡ 4)
        × ((resp.success || r.0.1) ≡ false → r.0.0 ≡ 4))
process_request_lem_example =
    process_request_lem (node false) twice (λ e. refl) (λ n e. refl) (0, false) fresh

ended-retries_example :
    attempts (node true) twice 3 0 (0, false)
    ≡ ((2, true), record { success = false; latency = 0; body = 1 })
unfolding wait
ended-retries_example =
    ended-retries (node true) twice (λ e h. h) (0, false) (omega arith) refl refl refl
