-- ===== src/Fetch/Block.antt =====
-- One block on its way into the store: FetchBlock of pkg/fetch/fetcher.go with its helpers of
-- fetcher_processing.go and fetcher_events.go, and the same for a result that FetchRangeConcurrent
-- takes. What the steps do to the store, the bus and the processors is an interface: a step
-- returns the state and whether it succeeded, or the state alone where the source only logs the
-- error. The node answers by height and attempt. Waits and metrics are left out.
pub mod Retries
pub mod Stores
use indexer_go.Base.{
  ℕ, zero, suc, ◌+◌, Bool, true, false, ◌&&◌, List, [], ◌∷◌, Option, none, some, ◌==◌,
  if◌then◌else◌,
}

pub record Effects (S Block Receipt : Type 0) : Type 0 where
  pub set_block : S → Block → S × Bool
  pub process_wbft_metadata : S → Block → S × Bool
  pub process_address_indexing : S → Block → List Receipt → S × Bool
  pub process_balance_tracking : S → Block → List Receipt → S × Bool
  pub initialize_genesis_balances : S → Block → S
  pub initialize_genesis_token_metadata : S → S
  pub process_fee_delegation_metadata : S → ℕ → S
  pub set_receipt : S → Receipt → S × Bool
  pub index_logs : S → Receipt → S
  pub parse_and_index_logs : S → Receipt → S
  pub process_receipts_parallel : S → Block → List Receipt → S × Bool
  pub publish_block : S → Block → S
  pub publish_transactions : S → Block → List Receipt → S
  pub publish_logs : S → Block → List Receipt → S
  pub process_block_with_processors : S → Block → List Receipt → S
  pub set_latest_height : S → ℕ → S × Bool
  pub should_process_in_batches : Block → List Receipt → Bool
  pub has_logs : Receipt → Bool
  -- Whether there is an event bus, a parser of system contract events, and a store with logs.
  pub has_event_bus : Bool
  pub has_parser : Bool
  pub has_log_writer : Bool

-- The rest of a function, after an early return on an error.
infixr 5 ◌>->◌
abbrev pub ◌>->◌ {ℓ} : {S : Type ℓ} → S × Bool → (S → S × Bool) → S × Bool
(s, true) >-> rest = rest s
(s, false) >-> rest = (s, false)

module _ {S Block Receipt : Type 0} (e : Effects S Block Receipt) where
  unfoldable pub process_block_metadata : ℕ → Block → List Receipt → S → S × Bool
  process_block_metadata height block receipts s = e.process_wbft_metadata s block >-> λ s1.
      e.process_address_indexing s1 block receipts >-> λ s2.
      e.process_balance_tracking s2 block receipts >-> λ s3. (
        if height == 0
            then e.initialize_genesis_token_metadata (e.initialize_genesis_balances s3 block)
            else s3,
        true,
      )

  abbrev pub logged : Receipt → S → S
  logged r s = if e.has_log_writer && e.has_logs r then e.index_logs s r else s

  abbrev pub parsed : Receipt → S → S
  parsed r s = if e.has_parser && e.has_logs r then e.parse_and_index_logs s r else s

  -- The parser over all receipts of a large block.
  unfoldable pub parse_all : List Receipt → S → S
  parse_all [] s = s
  parse_all (r ∷ rs) s = parse_all rs (parsed r s)

  unfoldable pub store_each : List Receipt → S → S × Bool
  store_each [] s = (s, true)
  store_each (r ∷ rs) s = e.set_receipt s r >-> λ t. store_each rs (parsed r (logged r t))

  unfoldable pub store_and_process_receipts : Block → List Receipt → S → S × Bool
  unfolding store_each parse_all
  store_and_process_receipts block receipts s =
      if e.should_process_in_batches block receipts
      then (e.process_receipts_parallel s block receipts >-> λ t. (parse_all receipts t, true))
      else store_each receipts s

  abbrev pub publish_block_events : Block → List Receipt → S → S
  publish_block_events block receipts s =
      e.publish_logs (e.publish_transactions s block receipts) block receipts

  -- What FetchBlock does with a block that it has.
  unfoldable pub index_block : ℕ → Block → List Receipt → S → S × Bool
  unfolding process_block_metadata store_and_process_receipts
  index_block height block receipts s = e.set_block s block >-> λ s1.
      process_block_metadata height block receipts s1 >-> λ s2.
      let s3 = e.process_fee_delegation_metadata s2 height in
      let s4 = if e.has_event_bus then e.publish_block s3 block else s3 in
      store_and_process_receipts block receipts s4 >-> λ s5.
      let s6 = if e.has_event_bus then publish_block_events block receipts s5 else s5 in
      e.set_latest_height (e.process_block_with_processors s6 block receipts) height

  -- The receipts of a result that was fetched concurrently.
  unfoldable pub store_receipts : List Receipt → S → S × Bool
  store_receipts [] s = (s, true)
  store_receipts (r ∷ rs) s = e.set_receipt s r >-> λ t. store_receipts rs (logged r t)

  -- What FetchRangeConcurrent does with a result when its turn has come.
  unfoldable pub store_result : ℕ → Block → List Receipt → S → S × Bool
  unfolding store_receipts
  store_result height block receipts s = e.set_block s block >-> λ s1.
      e.process_wbft_metadata s1 block >-> λ s2.
      e.process_address_indexing s2 block receipts >-> λ s3.
      e.process_balance_tracking s3 block receipts >-> λ s4.
      let s5 = e.process_fee_delegation_metadata s4 height in
      let s6 = if e.has_event_bus then e.publish_block s5 block else s5 in
      store_receipts receipts s6 >-> λ s7.
      let s8 = if e.has_event_bus then e.publish_transactions s7 block receipts else s7 in
      e.set_latest_height s8 height

-- The node's answers to a height at an attempt, or its errors.
pub record Node (Block Receipt : Type 0) : Type 0 where
  pub get_block : ℕ → ℕ → Option Block
  pub get_receipts : ℕ → ℕ → Option (List Receipt)

module _ {Block Receipt : Type 0} (node : Node Block Receipt) where
  abbrev pub answer : ℕ → ℕ → Option (Block × List Receipt)
  answer height attempt = elim (node.get_block height attempt) [
    | none ↦ none
    | some block ↦ elim (node.get_receipts height attempt) [
      | none ↦ none
      | some receipts ↦ some (block, receipts)
    ]
  ]

  -- The attempts from one on, with as many left after it.
  unfoldable pub retry_loop : ℕ → ℕ → ℕ → Option (Block × List Receipt)
  retry_loop zero attempt height = answer height attempt
  retry_loop (suc left) attempt height = elim (answer height attempt) [
    | none ↦ retry_loop left (attempt + 1) height
    | some found ↦ some found
  ]

  unfoldable pub fetch_block_and_receipts_with_retry : ℕ → ℕ → Option (Block × List Receipt)
  unfolding retry_loop
  fetch_block_and_receipts_with_retry max_retries height = retry_loop max_retries 0 height

-- FetchBlock.
module _ {S Block Receipt : Type 0} (e : Effects S Block Receipt) (node : Node Block Receipt) where
  abbrev pub indexed : ℕ → S → Option (Block × List Receipt) → S × Bool
  indexed height s none = (s, false)
  indexed height s (some (block, receipts)) = index_block e height block receipts s

  unfoldable pub fetch_block : ℕ → ℕ → S → S × Bool
  unfolding fetch_block_and_receipts_with_retry index_block
  fetch_block max_retries height s =
      indexed height s (fetch_block_and_receipts_with_retry node max_retries height)
