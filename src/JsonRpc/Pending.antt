-- ===== src/JsonRpc/Pending.antt =====
-- PendingPool of pkg/api/jsonrpc/pending_pool.go. The lock makes each method one step; the clock
-- readings are arguments. A size that is not above 0 is 0 here, and so is a time to live.
pub mod Entries
pub mod Arrival
pub mod Departure
pub mod Expiry
pub mod Invariant
pub mod Bounds
pub mod Since
pub mod Kept
pub mod Covered
pub mod Polls
use indexer_go.Base.{
  ℕ, ◌+◌, ◌-◌, ◌%◌, Bool, true, false, not, List, [], ◌∷◌, ◌++◌, Option, none, some, ltb, leb, ◌==◌,
  if◌then◌else◌, length,
}
use indexer_go.Base.Dict.{lookup, insert, delete, remove, is_some}
use indexer_go.Text.{Bytes, uint64_limit}
use indexer_go.Text.Equality.{bytes_eq}

-- DefaultPendingPoolSize, and DefaultPendingTxTTL in nanoseconds.
abbrev pub default_pending_pool_size : ℕ
default_pending_pool_size = 10000

abbrev pub default_pending_tx_ttl : ℕ
default_pending_tx_ttl = 300000000000

-- What the pool reads of a transaction.
pub record TxData : Type 0 where
  pub nonce : ℕ
  pub gas_price : Bytes
  pub gas : ℕ
  pub input : Bytes

pub record TransactionEvent : Type 0 where
  pub tx : Option TxData
  pub hash : Bytes
  pub block_number : ℕ
  pub from : Bytes
  pub to : Option Bytes
  pub value : Bytes

pub record PendingTransaction : Type 0 where
  pub hash : Bytes
  pub from : Bytes
  pub to : Option Bytes
  pub value : Bytes
  pub nonce : ℕ
  pub gas_price : Bytes
  pub gas : ℕ
  pub input : Bytes
  pub seen_at : ℕ
  pub seen_index : ℕ

pub record PendingPool : Type 0 where
  pub transactions : List Bytes
  pub tx_details : List (Bytes × PendingTransaction)
  pub next_index : ℕ
  pub max_size : ℕ
  pub ttl : ℕ

unfoldable pub new_pending_pool : ℕ → ℕ → PendingPool
new_pending_pool max_size ttl = record {
  transactions = [];
  tx_details = [];
  next_index = 1;
  max_size = if max_size == 0 then default_pending_pool_size else max_size;
  ttl = if ttl == 0 then default_pending_tx_ttl else ttl;
}

abbrev pub with_data : Option TxData → PendingTransaction → PendingTransaction
with_data none t = t
with_data (some x) t = record t {
  nonce = x.nonce;
  gas_price = x.gas_price;
  gas = x.gas;
  input = x.input;
}

abbrev pub pending_tx : ℕ → ℕ → TransactionEvent → PendingTransaction
pending_tx now index ev = with_data ev.tx (record {
  hash = ev.hash;
  from = ev.from;
  to = ev.to;
  value = ev.value;
  nonce = 0;
  gas_price = [];
  gas = 0;
  input = [];
  seen_at = now;
  seen_index = index;
})

-- The pool without its oldest transaction.
abbrev pub without_oldest : List Bytes → PendingPool → PendingPool
without_oldest [] p = p
without_oldest (oldest ∷ rest) p = record p {
  transactions = rest;
  tx_details = delete oldest p.tx_details;
}

unfoldable pub make_room : PendingPool → PendingPool
make_room p = if leb p.max_size (length p.transactions) then without_oldest p.transactions p else p

unfoldable pub append : ℕ → TransactionEvent → PendingPool → PendingPool
append now ev p = record p {
  transactions = p.transactions ++ ev.hash ∷ [];
  tx_details = insert ev.hash (pending_tx now p.next_index ev) p.tx_details;
  next_index = (p.next_index + 1) % uint64_limit;
}

unfoldable pub add_transaction : ℕ → TransactionEvent → PendingPool → PendingPool
unfolding make_room append
add_transaction now ev p =
    if is_some (lookup ev.hash p.tx_details) then p else append now ev (make_room p)

unfoldable pub remove_transaction : Bytes → PendingPool → PendingPool
remove_transaction hash p =
    if is_some (lookup hash p.tx_details)
    then record p {
      transactions = remove hash p.transactions;
      tx_details = delete hash p.tx_details;
    }
    else p

-- An event of the bus: a mined transaction leaves the pool.
unfoldable pub process_event : ℕ → TransactionEvent → PendingPool → PendingPool
unfolding add_transaction remove_transaction
process_event now ev p =
    if ev.block_number == 0 then add_transaction now ev p else remove_transaction ev.hash p

-- The loop of GetTransactionsSince, with the result and the highest index so far.
unfoldable pub since_loop :
    ℕ → List (Bytes × PendingTransaction) → List Bytes → List Bytes → ℕ → List Bytes × ℕ
since_loop since details [] result max_index = (result, max_index)
since_loop since details (hash ∷ rest) result max_index = elim (lookup hash details) [
  | none ↦ since_loop since details rest result max_index
  | some t ↦
      since_loop since details rest (if ltb since t.seen_index then result ++ hash ∷ [] else result)
        (if ltb since t.seen_index
          then if ltb max_index t.seen_index then t.seen_index else max_index
          else max_index)
]

unfoldable pub get_transactions_since : ℕ → PendingPool → List Bytes × ℕ
unfolding since_loop
get_transactions_since since p = since_loop since p.tx_details p.transactions [] since

unfoldable pub get_all_transactions : PendingPool → List Bytes
get_all_transactions p = p.transactions

unfoldable pub get_transaction : Bytes → PendingPool → Option PendingTransaction
get_transaction hash p = lookup hash p.tx_details

unfoldable pub size : PendingPool → ℕ
size p = length p.transactions

unfoldable pub current_index : PendingPool → ℕ
current_index p = (p.next_index + uint64_limit - 1) % uint64_limit

abbrev pub is_expired : ℕ → ℕ → PendingTransaction → Bool
is_expired now ttl t = ltb (t.seen_at + ttl) now

-- The keys of the expired transactions.
unfoldable pub expired : ℕ → ℕ → List (Bytes × PendingTransaction) → List Bytes
expired now ttl [] = []
expired now ttl ((hash, t) ∷ rest) =
    let others = expired now ttl rest in if is_expired now ttl t then hash ∷ others else others

unfoldable pub delete_all :
    List Bytes → List (Bytes × PendingTransaction) → List (Bytes × PendingTransaction)
delete_all [] details = details
delete_all (hash ∷ rest) details = delete_all rest (delete hash details)

-- The hashes that have details.
unfoldable pub known : List (Bytes × PendingTransaction) → List Bytes → List Bytes
known details [] = []
known details (hash ∷ rest) =
    let others = known details rest in
    if is_some (lookup hash details) then hash ∷ others else others

abbrev pub rebuilt : List Bytes → PendingPool → PendingPool
rebuilt [] p = p
rebuilt (hash ∷ rest) p =
    let details = delete_all (hash ∷ rest) p.tx_details in
    record p { transactions = known details p.transactions; tx_details = details }

unfoldable pub cleanup : ℕ → PendingPool → PendingPool
unfolding expired delete_all known
cleanup now p = rebuilt (expired now p.ttl p.tx_details) p
