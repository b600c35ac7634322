-- ===== src/Watchlist/Types.antt =====
-- The data of pkg/watchlist/types.go that the matcher reads and makes, and what it reads of
-- transactions, receipts and logs. Addresses and hashes are their bytes. The sender of a
-- transaction is recovered by go-ethereum; `none` is its error.
use Prim.Native.String.{String}
use indexer_go.Base.{ℕ, Bool, List, Option}
use indexer_go.Text.{Bytes}

pub record WatchFilter : Type 0 where
  pub tx_from : Bool
  pub tx_to : Bool
  pub erc20 : Bool
  pub erc721 : Bool
  pub logs : Bool
  pub min_value : Bytes

pub record WatchedAddress : Type 0 where
  pub id : String
  pub address : Bytes
  pub chain_id : String
  pub label : String
  pub filter : WatchFilter

pub data WatchEventType : Type 0 where
  event_tx_from event_tx_to event_erc20 event_erc721 event_log : WatchEventType

pub data EventData : Type 0 where
  tx_data :
      (sender recipient : Bytes) (value : Bytes) (gas_used : ℕ) (gas_price : Bytes) (nonce : ℕ)
      → EventData
  log_data : (emitter : Bytes) (topics : List Bytes) (payload : Bytes) → EventData
  erc20_data : (token sender recipient : Bytes) (amount : Bytes) → EventData
  erc721_data : (token sender recipient : Bytes) (token_id : Bytes) → EventData

-- An empty text and the zero address are what Go leaves in a field that is not set.
pub record WatchEvent : Type 0 where
  pub address_id : String
  pub address : Bytes
  pub chain_id : String
  pub event_type : WatchEventType
  pub block_number : ℕ
  pub block_hash : Bytes
  pub tx_hash : Bytes
  pub tx_index : ℕ
  pub log_index : Option ℕ
  pub event_data : EventData
  pub value : Bytes
  pub sender : Bytes
  pub recipient : Bytes
  pub token_id : Bytes
  pub token_amount : Bytes

pub record Transaction : Type 0 where
  pub hash : Bytes
  pub sender : Option Bytes
  pub to : Option Bytes
  pub value : ℕ
  pub gas_price : ℕ
  pub nonce : ℕ

pub record Receipt : Type 0 where
  pub transaction_index : ℕ
  pub gas_used : ℕ

pub record Log : Type 0 where
  pub address : Bytes
  pub topics : List Bytes
  pub payload : Bytes
  pub tx_hash : Bytes
  pub tx_index : ℕ
  pub index : ℕ

pub record Block : Type 0 where
  pub number : ℕ
  pub hash : Bytes
