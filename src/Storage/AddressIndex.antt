-- ===== src/Storage/AddressIndex.antt =====
-- The index from addresses to transactions: AddTransactionToAddressIndex of
-- pkg/storage/pebble_transactions.go, and the sequence numbers that NewPebbleStorage of
-- pkg/storage/pebble.go starts with. The mutex makes each reservation of a number one step.
pub mod Kept
use indexer_go.Base.{
  ℕ, ◌+◌, ◌%◌, Bool, true, false, List, [], ◌∷◌, Option, none, some, if◌then◌else◌,
}
use indexer_go.Base.Dict.{Eq, lookup, insert}
use indexer_go.Text.{Bytes, uint64_limit}
use indexer_go.Storage.Hex.{Hex}
use indexer_go.Storage.Store.{Store}
use indexer_go.Storage.Blocks.{address_transaction_key}

pub data Error : Type 0 where
  err_closed : Error
  err_read_only : Error
  err_set : Error

pub record PebbleStorage (S Address : Type 0) : Type 0 where
  pub db : S
  pub closed : Bool
  pub read_only : Bool
  pub addr_seq : List (Address × ℕ)

-- loadAddressSequences loads nothing.
unfoldable pub new_pebble_storage : {S Address : Type 0} → S → Bool → PebbleStorage S Address
new_pebble_storage db read_only = record {
  db = db;
  closed = false;
  read_only = read_only;
  addr_seq = [];
}

abbrev pub or_zero : Option ℕ → ℕ
or_zero none = 0
or_zero (some n) = n

module _ {S Address : Type 0} ⦃store : Store S⦄ ⦃address_hex : Hex Address⦄
    ⦃address_eq : Eq Address⦄ where
  -- s.addrSeq[addr]
  unfoldable pub next_seq : PebbleStorage S Address → Address → ℕ
  unfolding lookup
  next_seq s addr = or_zero (lookup addr s.addr_seq)

  -- The store with the next number of the address reserved.
  unfoldable pub reserve : PebbleStorage S Address → Address → PebbleStorage S Address
  unfolding next_seq insert
  reserve s addr = record {
    db = s.db;
    closed = s.closed;
    read_only = s.read_only;
    addr_seq = insert addr ((next_seq s addr + 1) % uint64_limit) s.addr_seq;
  }

  -- The outcome of the write, after the reservation.
  abbrev written : PebbleStorage S Address → Option S → PebbleStorage S Address × Option Error
  written s none = (s, some err_set)
  written s (some db) =
      (record { db = db; closed = s.closed; read_only = s.read_only; addr_seq = s.addr_seq }, none)

  unfoldable pub add_transaction_to_address_index :
      PebbleStorage S Address → Address → Bytes → PebbleStorage S Address × Option Error
  unfolding reserve address_transaction_key
  add_transaction_to_address_index s addr tx_hash =
      if s.closed
      then (s, some err_closed)
      else if s.read_only
      then (s, some err_read_only)
      else written (reserve s addr)
          (store.write s.db (address_transaction_key addr (next_seq s addr)) tx_hash)

  -- One call after the other.
  unfoldable pub add_all :
      PebbleStorage S Address → List (Address × Bytes) → PebbleStorage S Address
  unfolding add_transaction_to_address_index
  add_all s [] = s
  add_all s ((addr, tx_hash) ∷ calls) =
      add_all (add_transaction_to_address_index s addr tx_hash).0 calls
