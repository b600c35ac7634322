-- ===== src/Watchlist/Matcher.antt =====
-- EventMatcher of pkg/watchlist/filter.go. Both maps are keyed by chain, the inner ones by
-- address. The filter that NewBloomFilter(nil) makes, and go-ethereum's BytesToAddress and
-- Bytes2Hex, are parameters.
pub mod Refinement
use Prim.Native.String.{String}
use indexer_go.Base.{
  ℕ, zero, suc, ◌+◌, ◌-◌, ◌*◌, Bool, true, false, ◌&&◌, List, [], ◌∷◌, ◌++◌, Option, none, some,
  leb, ◌==◌ as nat_beq, if◌then◌else◌, length, get_or, replicate,
}
use indexer_go.Base.Dict.{string_eq, lookup, insert, delete}
use indexer_go.Text.{Bytes, decimal}
use indexer_go.Text.Equality.{bytes_beq, bytes_eq}
use indexer_go.Storage.Parse.{big_endian, from_big_endian}
use indexer_go.Watchlist.Types.{
  WatchFilter, WatchedAddress, WatchEventType, event_tx_from, event_tx_to, event_erc20,
  event_erc721, event_log, EventData, tx_data, log_data, erc20_data, erc721_data, WatchEvent,
  Transaction, Receipt, Log, Block,
}
use indexer_go.Watchlist.Bloom.{BloomFilter, add, might_contain}

abbrev pub AddressMap : Type 0
AddressMap = List (Bytes × WatchedAddress)

pub record EventMatcher : Type 0 where
  pub bloom_filters : List (String × BloomFilter)
  pub addresses : List (String × AddressMap)

unfoldable pub new_event_matcher : EventMatcher
new_event_matcher = record { bloom_filters = []; addresses = [] }

abbrev pub or_else {ℓ} : {A : Type ℓ} → A → Option A → A
or_else d none = d
or_else d (some a) = a

unfoldable pub add_address : BloomFilter → WatchedAddress → EventMatcher → EventMatcher
unfolding lookup insert add
add_address default watched m = record {
  bloom_filters =
      insert watched.chain_id
        (add watched.address (or_else default (lookup watched.chain_id m.bloom_filters)))
        m.bloom_filters;
  addresses =
      insert watched.chain_id
        (insert watched.address watched (or_else [] (lookup watched.chain_id m.addresses)))
        m.addresses;
}

abbrev removed : String → Bytes → EventMatcher → Option AddressMap → EventMatcher
removed chain_id address m none = m
removed chain_id address m (some addrs) = record {
  bloom_filters = m.bloom_filters;
  addresses = insert chain_id (delete address addrs) m.addresses;
}

unfoldable pub remove_address : String → Bytes → EventMatcher → EventMatcher
unfolding lookup insert delete
remove_address chain_id address m = removed chain_id address m (lookup chain_id m.addresses)

-- The digits of a number of any size.
unfoldable pub read_digits : ℕ → Bytes → Option ℕ
read_digits n [] = some n
read_digits n (c ∷ cs) =
    let rest = read_digits (n * 10 + (c - b'0')) cs in
    if leb b'0' c && leb c b'9' then rest else none

unfoldable pub read_number : Bytes → Option ℕ
unfolding read_digits
read_number [] = none
read_number (c ∷ cs) = read_digits 0 (c ∷ cs)

-- SetString of math/big with base 10: the least value that passes, which is 0 for a negative one.
unfoldable pub read_minimum : Bytes → Option ℕ
unfolding read_number
read_minimum [] = none
read_minimum (c ∷ cs) =
    if nat_beq c b'-'
    then elim (read_number cs) [ none ↦ none | some n ↦ some 0 ]
    else if nat_beq c b'+'
    then read_number cs
    else read_number (c ∷ cs)

abbrev pub passes : ℕ → Option ℕ → Bool
passes value none = true
passes value (some least) = leb least value

unfoldable pub matches_value_filter : ℕ → Bytes → Bool
unfolding read_minimum
matches_value_filter value [] = true
matches_value_filter value (c ∷ cs) = passes value (read_minimum (c ∷ cs))

abbrev pub zero_address : Bytes
zero_address = replicate 20 0

abbrev pub transfer_topic : Bytes
transfer_topic = big_endian 32 0xddf252ad1be2c89b69c2b068fc378daa952ba7f163c4a11628f55a4df523b3ef

unfoldable pub create_tx_event :
    WatchedAddress → WatchEventType → Transaction → Receipt → Bytes → Block → WatchEvent
unfolding decimal
create_tx_event watched event_type tx receipt sender block =
    let recipient = or_else zero_address tx.to in
    record {
      address_id = watched.id;
      address = watched.address;
      chain_id = watched.chain_id;
      event_type = event_type;
      block_number = block.number;
      block_hash = block.hash;
      tx_hash = tx.hash;
      tx_index = receipt.transaction_index;
      log_index = none;
      event_data =
          tx_data sender recipient (decimal tx.value) receipt.gas_used (decimal tx.gas_price)
            tx.nonce;
      value = decimal tx.value;
      sender = sender;
      recipient = recipient;
      token_id = [];
      token_amount = [];
    }

-- An event made from a log.
abbrev of_log :
    WatchedAddress
    → WatchEventType
    → Log
    → Block
    → Bytes
    → Bytes
    → Bytes
    → Bytes
    → EventData
    → WatchEvent
of_log watched event_type log block sender recipient token_id token_amount event_data = record {
  address_id = watched.id;
  address = watched.address;
  chain_id = watched.chain_id;
  event_type = event_type;
  block_number = block.number;
  block_hash = block.hash;
  tx_hash = log.tx_hash;
  tx_index = log.tx_index;
  log_index = some log.index;
  event_data = event_data;
  value = [];
  sender = sender;
  recipient = recipient;
  token_id = token_id;
  token_amount = token_amount;
}

module _ (to_address : Bytes → Bytes) (to_hex : Bytes → Bytes) where
  unfoldable pub create_log_event : WatchedAddress → Log → Block → WatchEvent
  create_log_event watched log block =
      of_log watched event_log log block zero_address zero_address [] []
        (log_data log.address log.topics (to_hex log.payload))

  unfoldable pub create_erc20_event : WatchedAddress → Log → Bytes → Bytes → Block → WatchEvent
  unfolding decimal from_big_endian
  create_erc20_event watched log sender recipient block =
      let amount = decimal (from_big_endian 0 log.payload) in
      of_log watched event_erc20 log block sender recipient [] amount
        (erc20_data log.address sender recipient amount)

  unfoldable pub create_erc721_event : WatchedAddress → Log → Bytes → Bytes → Block → WatchEvent
  unfolding decimal from_big_endian
  create_erc721_event watched log sender recipient block =
      let token_id = decimal (from_big_endian 0 (get_or log.topics 3 [])) in
      of_log watched event_erc721 log block sender recipient token_id []
        (erc721_data log.address sender recipient token_id)

  -- An event where the address is watched and its filter asks for it.
  abbrev pub event_if :
      (WatchedAddress → Bool)
      → (WatchedAddress → WatchEvent)
      → Option WatchedAddress
      → List WatchEvent
  event_if wants event none = []
  event_if wants event (some watched) = if wants watched then event watched ∷ [] else []

  -- The checks of one transaction and of one log, over the lookup of watched addresses.
  module _ (find : Bytes → Option WatchedAddress) (block : Block) where
    abbrev pub recipient_events : Transaction → Receipt → Bytes → Option Bytes → List WatchEvent
    recipient_events tx receipt sender none = []
    recipient_events tx receipt sender (some to) =
        event_if (λ w. w.filter.tx_to && matches_value_filter tx.value w.filter.min_value)
          (λ w. create_tx_event w event_tx_to tx receipt sender block) (find to)

    unfoldable pub tx_events : Transaction → Receipt → Option Bytes → List WatchEvent
    unfolding matches_value_filter create_tx_event
    tx_events tx receipt none = []
    tx_events tx receipt (some sender) =
        event_if (λ w. w.filter.tx_from && matches_value_filter tx.value w.filter.min_value)
          (λ w. create_tx_event w event_tx_from tx receipt sender block) (find sender)
        ++ recipient_events tx receipt sender tx.to

    unfoldable pub transfer_events : Log → Bytes → Bytes → Bool → List WatchEvent
    unfolding create_erc20_event create_erc721_event
    transfer_events log sender recipient true =
        event_if (λ w. w.filter.erc721) (λ w. create_erc721_event w log sender recipient block)
          (find sender)
        ++ event_if (λ w. w.filter.erc721) (λ w. create_erc721_event w log sender recipient block)
            (find recipient)
    transfer_events log sender recipient false =
        event_if (λ w. w.filter.erc20) (λ w. create_erc20_event w log sender recipient block)
          (find sender)
        ++ event_if (λ w. w.filter.erc20) (λ w. create_erc20_event w log sender recipient block)
            (find recipient)

    unfoldable pub log_events : List Log → List WatchEvent
    unfolding create_log_event transfer_events
    log_events [] = []
    log_events (log ∷ rest) =
        let emitted =
          event_if (λ w. w.filter.logs) (λ w. create_log_event w log block) (find log.address) in
        let transferred =
          if leb 3 (length log.topics) && bytes_beq (get_or log.topics 0 []) transfer_topic
          then transfer_events log (to_address (get_or log.topics 1 []))
              (to_address (get_or log.topics 2 [])) (nat_beq (length log.topics) 4)
          else [] in
        emitted ++ (transferred ++ log_events rest)

  -- A watched address, behind the check of the filter.
  unfoldable pub watched_at : BloomFilter → AddressMap → Bytes → Option WatchedAddress
  unfolding might_contain lookup
  watched_at bf addrs addr = if might_contain bf addr then lookup addr addrs else none

  -- Without a filter or a map for the chain there is no event.
  abbrev pub with_chain :
      (BloomFilter → AddressMap → List WatchEvent)
      → Option BloomFilter
      → Option AddressMap
      → List WatchEvent
  with_chain events none addrs = []
  with_chain events (some bf) none = []
  with_chain events (some bf) (some addrs) = events bf addrs

  unfoldable pub match_transaction :
      EventMatcher → String → Transaction → Receipt → Block → List WatchEvent
  unfolding lookup watched_at tx_events
  match_transaction m chain_id tx receipt block =
      with_chain (λ bf addrs. tx_events (watched_at bf addrs) block tx receipt tx.sender)
        (lookup chain_id m.bloom_filters) (lookup chain_id m.addresses)

  unfoldable pub match_logs : EventMatcher → String → List Log → Block → List WatchEvent
  unfolding lookup watched_at log_events
  match_logs m chain_id logs block =
      with_chain (λ bf addrs. log_events (watched_at bf addrs) block logs)
        (lookup chain_id m.bloom_filters) (lookup chain_id m.addresses)
