-- ===== src/Tests/Watchlist.antt =====
-- Inputs for the theorems on pkg/watchlist.
use indexer_go.Base.{◌≡◌, refl, true, List, [], ◌∷◌, some, arith, All}
use indexer_go.Text.{Bytes}
use indexer_go.Watchlist.Types.{WatchFilter, WatchedAddress, Transaction, Receipt, Log, Block}
use indexer_go.Watchlist.Bloom.{
  BloomFilter, new_bloom_filter, add_batch, might_contain, to_bytes, from_bytes,
}
use indexer_go.Watchlist.Bloom.Members.{IsValid, new_bloom_filter-IsValid, might_contain-add_batch}
use indexer_go.Watchlist.Bloom.Bytes.{from_bytes-to_bytes}
use indexer_go.Watchlist.Matcher.{new_event_matcher, match_transaction, match_logs, transfer_topic}
use indexer_go.Watchlist.Matcher.Refinement.{
  Call, call_add, call_remove, calls, exact_transaction, exact_logs, match-exact,
}

abbrev alice : Bytes
alice = 17 ∷ 34 ∷ 51 ∷ []

abbrev bob : Bytes
bob = 68 ∷ 85 ∷ 102 ∷ []

abbrev empty : BloomFilter
empty = new_bloom_filter 2 3

empty-IsValid : IsValid empty
empty-IsValid = new_bloom_filter-IsValid 2 3 (omega arith)

might_contain-add_batch_example :
    IsValid (add_batch (alice ∷ bob ∷ []) empty)
    × All (λ x. might_contain (add_batch (alice ∷ bob ∷ []) empty) x ≡ true) (alice ∷ bob ∷ [])
    × ((x : Bytes)
        → might_contain empty x ≡ true
        → might_contain (add_batch (alice ∷ bob ∷ []) empty) x ≡ true)
might_contain-add_batch_example = might_contain-add_batch (alice ∷ bob ∷ []) empty empty-IsValid

abbrev few_bits : BloomFilter
few_bits = record { bitset = 5 ∷ 18446744073709551615 ∷ []; size = 128; hash_count = 3; count = 2 }

from_bytes-to_bytes_example :
    from_bytes empty (to_bytes few_bits) 3
    ≡ record { bitset = 5 ∷ 18446744073709551615 ∷ []; size = 128; hash_count = 3; count = 0 }
from_bytes-to_bytes_example =
    from_bytes-to_bytes empty few_bits (refl, omega arith) (omega arith, (omega arith, tt))

abbrev everything : WatchFilter
everything = record {
  tx_from = true;
  tx_to = true;
  erc20 = true;
  erc721 = true;
  logs = true;
  min_value = b'5' ∷ [];
}

abbrev watch_alice : WatchedAddress
watch_alice = record {
  id = "first";
  address = alice;
  chain_id = "main";
  label = "alice";
  filter = everything;
}

abbrev changes : List Call
changes = call_add watch_alice ∷ call_remove "main" bob ∷ []

abbrev payment : Transaction
payment = record {
  hash = 1 ∷ [];
  sender = some alice;
  to = some bob;
  value = 7;
  gas_price = 1;
  nonce = 0;
}

abbrev paid : Receipt
paid = record { transaction_index = 0; gas_used = 21000 }

abbrev transfer : Log
transfer = record {
  address = bob;
  topics = transfer_topic ∷ alice ∷ bob ∷ [];
  payload = 9 ∷ [];
  tx_hash = 1 ∷ [];
  tx_index = 0;
  index = 0;
}

abbrev block : Block
block = record { number = 12; hash = 2 ∷ [] }

match-exact_example :
    (match_transaction
        (λ x. x)
        (λ x. x)
        (calls empty new_event_matcher changes)
        "main"
        payment
        paid
        block
      ≡ exact_transaction
          (λ x. x)
          (λ x. x)
          (calls empty new_event_matcher changes)
          "main"
          payment
          paid
          block)
    × (match_logs
          (λ x. x)
          (λ x. x)
          (calls empty new_event_matcher changes)
          "main"
          (transfer ∷ [])
          block
        ≡ exact_logs
            (λ x. x)
            (λ x. x)
            (calls empty new_event_matcher changes)
            "main"
            (transfer ∷ [])
            block)
match-exact_example =
    match-exact (λ x. x) (λ x. x) empty changes empty-IsValid "main" payment paid (transfer ∷ [])
      block
