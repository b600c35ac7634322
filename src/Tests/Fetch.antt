-- ===== src/Tests/Fetch.antt =====
-- Inputs for the theorems on gap detection and recovery of pkg/fetch/fetcher_gaps.go.
use indexer_go.Base.{
  ℕ, ◌≤◌, ◌≡◌, refl, Bool, true, false, not, ◌&&◌, ◌||◌, List, [], ◌∷◌, Option, some, arith, leb,
  ◌==◌, if◌then◌else◌,
}
use indexer_go.Fetch.{GapRange, found, detect_gaps}
use indexer_go.Fetch.Runs.{in_gaps, Apart}
use indexer_go.Fetch.Gaps.{detect_gaps_lem}
use indexer_go.Fetch.Receipts.{detect_receipt_gaps}
use indexer_go.Fetch.Receipts.Listed.{listed, or_empty, Rising, detect_receipt_gaps_lem}
use indexer_go.Fetch.Fill.{Fetcher, fill_gap, fill_gaps, get_next_height}
use indexer_go.Fetch.Fill.Latest.{get_next_height-fill_gap}
use indexer_go.Fetch.Fill.Recovery.{fill_gaps-detect_gaps}
use indexer_go.Base.{zero, suc, All, Bool-cases, inl, inr, ◌-◌, ◌+◌, ◌++◌, ◌*◌, ◌<◌, ◌⊎◌, none, map}
use indexer_go.Base.Dict.{nat_eq, has, lookup, insert, delete}
use indexer_go.Fetch.Block.{
  Effects, Node, answer, store_result, fetch_block_and_receipts_with_retry,
}
use indexer_go.Fetch.Block.{fetch_block}
use indexer_go.Fetch.Receipts.{ReceiptGapInfo}
use indexer_go.Fetch.Receipts.Fill.{fill_receipt_gaps, Regained, fill_receipt_gaps_lem}
use indexer_go.Fetch.Recover.{recover_gaps, recover_gaps_lem}
use indexer_go.Fetch.Block.Stores.{Laws}
use indexer_go.Fetch.Concurrent.Assembled.{fetcher, concurrently}
use indexer_go.Fetch.Concurrent.Stores.{fetch_block_lem}
use indexer_go.Fetch.Block.Retries.{fetch_block_and_receipts_with_retry_lem}
use indexer_go.Fetch.Concurrent.{fetch_range_concurrent}
use indexer_go.Fetch.Concurrent.Flush.{store_in_order, arriving}
use indexer_go.Fetch.Concurrent.Order.{fetch_range_concurrent-order}
use indexer_go.Fetch.Concurrent.Interrupted.{outcome, StoredPrefix, fetch_range_concurrent-prefix}
use indexer_go.Fetch.Concurrent.Agreement.{fetch_each, fetch_range_concurrent-fetch_block}

abbrev never : ℕ → Bool
never x = false

-- Blocks 5 and 8 are stored.
abbrev few : ℕ → Bool
few x = x == 5 || x == 8

detect_gaps_lem_example :
    (gaps : List GapRange) × (detect_gaps never (λ x. some (few x)) 9 4 11 ≡ some (found gaps))
    × ((x : ℕ) → in_gaps x gaps ≡ (leb 4 x && leb x 11 && not (few x)))
    × Apart 4 gaps
detect_gaps_lem_example =
    detect_gaps_lem never (λ x. some (few x)) few 9 4 11 (omega arith) (omega arith) (omega arith)
      (λ x a b. refl) (λ x a b. refl)

scan_test :
    detect_gaps never (λ x. some (few x)) 9 4 11
    ≡ some (
        found (
          record { start = 4; end = 4 }
          ∷ record { start = 6; end = 7 }
          ∷ record { start = 9; end = 11 }
          ∷ []))
unfolding detect_gaps
scan_test = refl

abbrev lists : ℕ → Option (List ℕ)
lists x = if x == 8 then some (70 ∷ []) else some []

detect_receipt_gaps_lem_example :
    (gaps : List (ReceiptGapInfo ℕ)) × (detect_receipt_gaps never (λ x. some (few x)) lists 9 4 11
      ≡ some (found gaps))
    × Rising 4 gaps
    × ((x : ℕ) → listed x gaps ≡ (if leb 4 x && leb x 11 && few x then or_empty (lists x) else []))
detect_receipt_gaps_lem_example =
    detect_receipt_gaps_lem never (λ x. some (few x)) lists few 9 4 11 (omega arith) (omega arith)
      (omega arith) (λ x a b. refl) (λ x a b. refl)

-- A store of heights with the latest one; a block is its number.
abbrev HeightStore : Type 0
HeightStore = (ℕ → Bool) × Option ℕ

abbrev height_effects : Effects HeightStore ℕ ℕ
height_effects = record {
  set_block = λ s b. ((λ y. s.0 y || b == y, s.1), true);
  process_wbft_metadata = λ s b. (s, true);
  process_address_indexing = λ s b rs. (s, true);
  process_balance_tracking = λ s b rs. (s, true);
  initialize_genesis_balances = λ s b. s;
  initialize_genesis_token_metadata = λ s. s;
  process_fee_delegation_metadata = λ s h. s;
  set_receipt = λ s r. (s, true);
  index_logs = λ s r. s;
  parse_and_index_logs = λ s r. s;
  process_receipts_parallel = λ s b rs. (s, true);
  publish_block = λ s b. s;
  publish_transactions = λ s b rs. s;
  publish_logs = λ s b rs. s;
  process_block_with_processors = λ s b rs. s;
  set_latest_height = λ s h. ((s.0, some h), true);
  should_process_in_batches = λ b rs. false;
  has_logs = λ r. true;
  has_event_bus = true;
  has_parser = true;
  has_log_writer = true;
}

set_stores : (s : ℕ → Bool) (b : ℕ) → (s b || b == b) ≡ true
set_stores s b = ground arith

set_keeps : (s : ℕ → Bool) (b y : ℕ) → s y ≡ true → (s y || b == y) ≡ true
set_keeps s b y h = ground (arith, h)

abbrev height_laws : Laws height_effects
height_laws = record {
  number = λ b. b;
  stored = λ s. s.0;
  latest = λ s. s.1;
  set_block-stores = λ s b ok. set_stores s.0 b;
  set_latest_height-sets = λ s h ok. refl;
  set_block-keeps = λ s b y p. set_keeps s.0 b y p;
  wbft-keeps = λ s b y p. p;
  address-keeps = λ s b rs y p. p;
  balance-keeps = λ s b rs y p. p;
  genesis-keeps = λ s b y p. p;
  tokens-keeps = λ s y p. p;
  delegation-keeps = λ s h y p. p;
  set_receipt-keeps = λ s r y p. p;
  index_logs-keeps = λ s r y p. p;
  parse-keeps = λ s r y p. p;
  parallel-keeps = λ s b rs y p. p;
  publish_block-keeps = λ s b y p. p;
  publish_transactions-keeps = λ s b rs y p. p;
  publish_logs-keeps = λ s b rs y p. p;
  processors-keep = λ s b rs y p. p;
  set_latest_height-keeps = λ s h y p. p;
}

abbrev height_node : Node ℕ ℕ
height_node = record {
  get_block = λ h attempt. if attempt == 0 then none else some h;
  get_receipts = λ h attempt. some (h ∷ []);
}

height_node-number : (h attempt b : ℕ) → (if attempt == 0 then none else some h) ≡ some b → b ≡ h
height_node-number h attempt b e = ground (arith, e)

-- The workers end in falling order of their `count` heights from `first` on.
unfoldable falling : ℕ → ℕ → List ℕ
falling first zero = []
falling first (suc count) = (first + count) ∷ falling first count

falling-within :
    (first count last : ℕ) → first + count ≤ last + 1 → All (λ h. h ≤ last) (falling first count)
unfolding falling
falling-within first zero last l = tt
falling-within first (suc count) last l =
    (omega (arith, l), falling-within first count last (omega (arith, l)))

falling-has :
    (first count x : ℕ) → first ≤ x → x < first + count → has x (falling first count) ≡ true
unfolding falling has
falling-has first zero x a b = absurd (omega (arith, a, b))
falling-has first (suc count) x a b = elim (Bool-cases (first + count == x)) [
  | inl e ↦ rw e refl
  | inr e ↦ rw e (falling-has first count x a (ground (arith, e, b)))
]

order-within : (first last : ℕ) → All (λ h. h ≤ last) (falling first (last + 1 - first))
unfolding falling
order-within first last = elim (Bool-cases (leb first (last + 1))) [
  | inl l ↦ falling-within first (last + 1 - first) last (ground (arith, l))
  | inr l ↦ let z : last + 1 - first ≡ 0 = ground (arith, l) in rw (z, falling) tt
]

-- The fetcher of FetchBlock and FetchRangeConcurrent over this store.
abbrev node : Fetcher HeightStore
node =
    fetcher height_effects height_laws height_node 3 height_node-number (λ x. (x, [])) (λ x. refl)
      (λ first last. falling first (last + 1 - first)) order-within
      (λ first last x a b. falling-has first (last + 1 - first) x a (omega (arith, a, b)))

abbrev start_store : (ℕ → Bool) × Option ℕ
start_store = (few, some 100)

-- The last gap has more than ten blocks.
fill_gaps-detect_gaps_example :
    (gaps : List GapRange) × (r : ((ℕ → Bool) × Option ℕ) × Bool) × (detect_gaps never
        (λ x. some (few x))
        28
        4
        30
      ≡ some (found gaps))
    × (fill_gaps node never 12 start_store gaps ≡ some r)
    × ((y : ℕ) → few y ≡ true → r.0.0 y ≡ true)
    × (r.1 ≡ true → detect_gaps never (λ x. some (r.0.0 x)) 28 4 30 ≡ some (found []))
fill_gaps-detect_gaps_example =
    fill_gaps-detect_gaps node never start_store 28 4 30 (omega arith) (omega arith) (omega arith)
      (λ x a b. refl)

large_gap_test :
    (node.fetch_range_concurrent start_store 9 30).1
      && (node.fetch_range_concurrent start_store 9 30).0.0 20
    ≡ true
unfolding concurrently falling lookup insert store_result delete
large_gap_test = refl

abbrev filled : (ℕ → Bool) × Option ℕ
filled = (λ y. (few y || 6 == y) || 7 == y, some 7)

get_next_height-fill_gap_example : get_next_height 1 filled.1 ≡ 8
unfolding fill_gap fetch_block
get_next_height-fill_gap_example =
    get_next_height-fill_gap node never start_store filled (record { start = 6; end = 7 }) 1
      (omega arith) (omega arith) (omega arith) (omega arith) refl

-- A store that is the list of its blocks; blocks and receipts are numbers.
abbrev plain_effects : Effects (List ℕ) ℕ ℕ
plain_effects = record {
  set_block = λ s b. (s ++ b ∷ [], true);
  process_wbft_metadata = λ s b. (s, true);
  process_address_indexing = λ s b rs. (s, true);
  process_balance_tracking = λ s b rs. (s, true);
  initialize_genesis_balances = λ s b. s;
  initialize_genesis_token_metadata = λ s. s;
  process_fee_delegation_metadata = λ s h. s;
  set_receipt = λ s r. (s, true);
  index_logs = λ s r. s;
  parse_and_index_logs = λ s r. s;
  process_receipts_parallel = λ s b rs. (s, true);
  publish_block = λ s b. s;
  publish_transactions = λ s b rs. s;
  publish_logs = λ s b rs. s;
  process_block_with_processors = λ s b rs. s;
  set_latest_height = λ s h. (s, true);
  should_process_in_batches = λ b rs. false;
  has_logs = λ r. true;
  has_event_bus = true;
  has_parser = false;
  has_log_writer = true;
}

abbrev replies : ℕ → ℕ × List ℕ
replies h = (h * 10, h ∷ [])

-- A node that answers every height at its second attempt.
abbrev slow_node : Node ℕ ℕ
slow_node = record {
  get_block = λ h attempt. if attempt == 0 then none else some (h * 10);
  get_receipts = λ h attempt. some (h ∷ []);
}

covers : (x : ℕ) → 4 ≤ x → x ≤ 6 → has x (6 ∷ 4 ∷ 5 ∷ []) ≡ true
unfolding has
covers x a b = ground (arith, a, b)

fetch_range_concurrent-order_example :
    fetch_range_concurrent plain_effects 4 false 4 6
      (arriving plain_effects replies (6 ∷ 4 ∷ 5 ∷ []))
      []
    ≡ some (store_in_order plain_effects replies 3 4 [])
fetch_range_concurrent-order_example =
    fetch_range_concurrent-order plain_effects replies 4 4 6 (6 ∷ 4 ∷ 5 ∷ []) [] (omega arith)
      (omega arith) (omega arith) (omega arith, (omega arith, (omega arith, tt))) covers

order_test :
    fetch_range_concurrent plain_effects 4 false 4 6
      (arriving plain_effects replies (6 ∷ 4 ∷ 5 ∷ []))
      []
    ≡ some (40 ∷ 50 ∷ 60 ∷ [], true)
unfolding fetch_range_concurrent store_result lookup insert delete
order_test = refl

fetch_range_concurrent-prefix_example :
    (r : List ℕ × Bool) × (fetch_range_concurrent plain_effects 4 false 4 6
        (map (outcome plain_effects replies) ((4, true) ∷ (6, true) ∷ (5, false) ∷ []))
        []
      ≡ some r)
    × StoredPrefix plain_effects replies 3 4 [] r
fetch_range_concurrent-prefix_example =
    fetch_range_concurrent-prefix plain_effects replies 4 false 4 6
      ((4, true) ∷ (6, true) ∷ (5, false) ∷ []) [] (omega arith) (omega arith) (omega arith)
      (omega arith, (omega arith, (omega arith, tt)))

fetch_range_concurrent-fetch_block_example :
    fetch_range_concurrent plain_effects 4 false 4 6
      (arriving plain_effects replies (6 ∷ 4 ∷ 5 ∷ []))
      []
    ≡ some (fetch_each plain_effects slow_node 2 3 4 [])
unfolding fetch_block_and_receipts_with_retry
fetch_range_concurrent-fetch_block_example =
    fetch_range_concurrent-fetch_block plain_effects slow_node 2 replies 4 4 6 (6 ∷ 4 ∷ 5 ∷ []) []
      (omega arith) (omega arith) (omega arith) refl
      (λ x a b. (refl, (omega (arith, a), refl, λ t. refl, λ t. refl)))
      (omega arith, (omega arith, (omega arith, tt))) covers

fetch_block_and_receipts_with_retry_lem_example :
    ((fetch_block_and_receipts_with_retry slow_node 2 7 ≡ none)
      × ((i : ℕ) → i ≤ 2 → answer slow_node 7 i ≡ none))
    ⊎ ((i : ℕ) × (p : ℕ × List ℕ) × (i ≤ 2)
        × (fetch_block_and_receipts_with_retry slow_node 2 7 ≡ some p)
        × (answer slow_node 7 i ≡ some p)
        × ((j : ℕ) → j < i → answer slow_node 7 j ≡ none))
fetch_block_and_receipts_with_retry_lem_example =
    fetch_block_and_receipts_with_retry_lem slow_node 2 7

fetch_block_lem_example :
    ((y : ℕ) → few y ≡ true → (fetch_block height_effects height_node 3 7 (few, none)).0.0 y ≡ true)
    × ((fetch_block height_effects height_node 3 7 (few, none)).1 ≡ true
        → ((fetch_block height_effects height_node 3 7 (few, none)).0.0 7 ≡ true)
          × ((fetch_block height_effects height_node 3 7 (few, none)).0.1 ≡ some 7))
fetch_block_lem_example =
    fetch_block_lem height_effects height_laws height_node 3 height_node-number 7 (few, none)

-- Receipts are the hashes of their transactions; the node has those from 70 to 72 for block 8.
abbrev put_receipt : (ℕ → Bool) → ℕ → (ℕ → Bool) × Bool
put_receipt s r = (λ h. s h || r == h, true)

abbrev node_receipts : ℕ → Option (List ℕ)
node_receipts height = if height == 8 then some (70 ∷ 71 ∷ 72 ∷ []) else some []

abbrev two_gaps : List (ReceiptGapInfo ℕ)
two_gaps =
    record { block_number = 8; missing_receipts = 71 ∷ 90 ∷ [] }
    ∷ record { block_number = 9; missing_receipts = 80 ∷ [] }
    ∷ []

fill_receipt_gaps_lem_example :
    Regained
      (λ r. r)
      put_receipt
      node_receipts
      (λ s h. s h)
      (λ s r ok. set_stores s r)
      (λ s r h p. set_keeps s r h p)
      few
      (fill_receipt_gaps (λ r. r) put_receipt node_receipts (λ gap. false) two_gaps few)
      two_gaps
fill_receipt_gaps_lem_example =
    fill_receipt_gaps_lem (λ r. r) put_receipt node_receipts (λ s h. s h) (λ s r ok. set_stores s r)
      (λ s r h p. set_keeps s r h p) (λ gap. false) two_gaps few

-- The latest height is 30 and receipts are stored at once.
abbrev store_receipt : HeightStore → ℕ → HeightStore × Bool
store_receipt s r = (s, true)

recover_gaps_lem_example :
    (gaps : List GapRange) × (r : HeightStore × Bool) × (t : HeightStore) × (detect_gaps never
        (λ x. some (few x))
        28
        4
        30
      ≡ some (found gaps))
    × (fill_gaps node never 12 (few, some 30) gaps ≡ some r)
    × (recover_gaps node never
          (λ h. h)
          store_receipt
          node_receipts
          (λ s h. some (h ∷ []))
          (λ gap. false)
          28
          4
          (few, some 30)
        ≡ some t)
    × ((y : ℕ) → few y ≡ true → t.0 y ≡ true)
    × (r.1 ≡ true → (x : ℕ) → 4 ≤ x → x ≤ 30 → t.0 x ≡ true)
recover_gaps_lem_example =
    recover_gaps_lem node never (λ h. h) store_receipt node_receipts (λ s h. some (h ∷ []))
      (λ gap. false) (few, some 30) 28 4 30 (λ s r y p. p) refl (omega arith) (omega arith)
      (omega arith) (λ x a b. refl)
