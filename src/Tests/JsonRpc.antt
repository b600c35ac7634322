-- ===== src/Tests/JsonRpc.antt =====
-- Inputs for the theorems on the filters and the pending transactions of pkg/api/jsonrpc.
use indexer_go.Base.{
  ℕ, ◌≡◌, ◌<◌, ◌-◌, ◌⊎◌, All, true, ◌==◌, if◌then◌else◌, false, List, [], ◌∷◌, none, some, arith,
  replicate, length,
}
use indexer_go.Base.Dict.{lookup, has}
use indexer_go.Text.{Bytes}
use indexer_go.Text.Equality.{bytes_eq}
use indexer_go.JsonRpc.Filters.{
  block_filter_type, Filter, FilterManager, Latest, BlockAnswer, new_filter_manager,
}
use indexer_go.JsonRpc.Filters.Ids.{Call, call, calls, filter_of, id_reuse}
use indexer_go.JsonRpc.Filters.Delivered.{Delivered}
use indexer_go.JsonRpc.Filters.Polls.{Poll}
use indexer_go.JsonRpc.Pending.{
  TransactionEvent, PendingPool, new_pending_pool, process_event, add_transaction, make_room,
  append, get_transactions_since,
}
use indexer_go.JsonRpc.Pending.Entries.{IsLinked, entries, after}
use indexer_go.JsonRpc.Pending.Invariant.{
  Step, processed, cleaned, run, all_handled, arrivals, run-arrivals, new_pending_pool-IsLinked,
}
use indexer_go.JsonRpc.Pending.Polls.{IsPool, new_pending_pool-IsPool, run-IsPool, polls_again}

abbrev identity : Bytes → Bytes
identity x = x

abbrev request : ℕ → Call
request now = record {
  now = now;
  filter_type = block_filter_type;
  log_filter = none;
  last_block = 100;
  decode = false;
  pending = none;
}

abbrev manager : FilterManager
manager = new_filter_manager 300

abbrev others : List Call
others = replicate 255 (request 8)

id_reuse_example :
    (lookup
        (call identity (request 7) manager).1
        (calls identity others (call identity (request 7) manager).0).filters
      ≡ some (filter_of identity (request 7) manager.next_id))
    × ((last : Call)
        → length others ≡ 255
        → ((call identity last (calls identity others (call identity (request 7) manager).0)).1
            ≡ (call identity (request 7) manager).1)
          × (lookup
                (call identity (request 7) manager).1
                (call identity last
                  (calls identity others (call identity (request 7) manager).0)).0.filters
              ≡ some (
                  filter_of identity last
                    (calls identity others (call identity (request 7) manager).0).next_id)))
unfolding new_filter_manager
id_reuse_example =
    id_reuse identity (λ a b e. e) (request 7) manager (omega arith) others (omega arith)

abbrev chain : ℕ → Bytes
chain n = n ∷ []

abbrev watching : Filter
watching = record {
  id = 1 ∷ [];
  filter_type = block_filter_type;
  log_filter = none;
  last_poll_block = 2;
  last_pending_tx_index = 0;
  created_at = 0;
  last_poll_at = 0;
  decode = false;
}

abbrev one_filter : FilterManager
one_filter = record { filters = (1 ∷ [], watching) ∷ []; next_id = 2; timeout = 300 }

abbrev steady : ℕ → ℕ → Poll
steady now h = record {
  now = now;
  latest = Latest.height h;
  get_block = λ n. BlockAnswer.block_hash (chain n);
}

abbrev outage : Poll
outage = record { now = 5; latest = Latest.height 8; get_block = λ n. BlockAnswer.broken }

-- The store has lost block 7.
abbrev hole : ℕ → ℕ → Poll
hole now h = record {
  now = now;
  latest = Latest.height h;
  get_block = λ n. if n == 7 then BlockAnswer.no_block else BlockAnswer.block_hash (chain n);
}

abbrev some_polls : List Poll
some_polls = steady 4 6 ∷ outage ∷ hole 5 8 ∷ []

abbrev seen : ℕ → ℕ → TransactionEvent
seen h number = record {
  tx = none;
  hash = h ∷ [];
  block_number = number;
  from = [];
  to = none;
  value = [];
}

-- A pool of at most two transactions: three come, one of them is mined.
abbrev history : List Step
history =
    processed 1 (seen 1 0)
    ∷ processed 2 (seen 2 0)
    ∷ processed 3 (seen 3 0)
    ∷ processed 4 (seen 2 8)
    ∷ cleaned 5
    ∷ []

abbrev small_pool : PendingPool
small_pool = new_pending_pool 2 60

run-arrivals_example :
    IsLinked (run history small_pool)
    × (arrivals (run history small_pool)
        ≡ all_handled small_pool.max_size small_pool.ttl history (arrivals small_pool))
run-arrivals_example = run-arrivals history small_pool (new_pending_pool-IsLinked 2 60)

run-IsPool_example : IsPool (run history small_pool)
unfolding new_pending_pool
run-IsPool_example = run-IsPool history small_pool (new_pending_pool-IsPool 2 60) (omega arith)

abbrev busy_pool : PendingPool
busy_pool = run (processed 0 (seen 9 0) ∷ []) small_pool

busy_pool-IsPool : IsPool busy_pool
unfolding new_pending_pool
busy_pool-IsPool =
    run-IsPool (processed 0 (seen 9 0) ∷ []) small_pool (new_pending_pool-IsPool 2 60) (omega arith)

polls_again_example :
    ((get_transactions_since 0 busy_pool).0 ≡ after 0 (entries busy_pool))
    × ((get_transactions_since (get_transactions_since 0 busy_pool).1 (run history busy_pool)).0
        ≡ after (busy_pool.next_index - 1) (entries (run history busy_pool)))
    × ((get_transactions_since (get_transactions_since 0 busy_pool).1 (run history busy_pool)).1
        < (run history busy_pool).next_index)
    × All
        (λ h.
          (has h (get_transactions_since 0 busy_pool).0 ≡ true)
          ⊎ (has h
                (get_transactions_since
                  (get_transactions_since 0 busy_pool).1
                  (run history busy_pool)).0
              ≡ true))
        (after 0 (entries (run history busy_pool)))
unfolding new_pending_pool process_event add_transaction make_room append lookup
polls_again_example = polls_again 0 history busy_pool busy_pool-IsPool (omega arith) (omega arith)
