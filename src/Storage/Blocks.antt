-- ===== src/Storage/Blocks.antt =====
-- Keys of blocks, transactions, receipts and their indexes: pkg/storage/schema.go.
use indexer_go.Base.{ℕ, ◌+◌, ◌%◌, [], ◌∷◌, ◌++◌}
use indexer_go.Text.{Bytes, bytes, slash, decimal, padded, uint64_limit}
use indexer_go.Storage.Hex.{Hex, hex}
use indexer_go.Storage.Prefixes.{
  key_block_count, key_latest_height, key_transaction_count, prefix_addr, prefix_block_hash,
  prefix_blocks, prefix_contract_addr, prefix_receipts, prefix_tx_hash, prefix_txs,
}

unfoldable pub latest_height_key : Bytes
latest_height_key = key_latest_height

unfoldable pub block_key : ℕ → Bytes
block_key height = prefix_blocks ++ decimal height

unfoldable pub transaction_key : ℕ → ℕ → Bytes
transaction_key height tx_index = prefix_txs ++ decimal height ++ slash ∷ decimal tx_index

unfoldable pub block_timestamp_key : ℕ → ℕ → Bytes
block_timestamp_key timestamp height =
    bytes "/index/time/" ++ padded 20 timestamp ++ slash ∷ padded 20 height

unfoldable pub block_timestamp_key_prefix : Bytes
block_timestamp_key_prefix = bytes "/index/time/"

unfoldable pub block_count_key : Bytes
block_count_key = key_block_count

unfoldable pub transaction_count_key : Bytes
transaction_count_key = key_transaction_count

-- [start, end), with the end exclusive; the end's height wraps around.
unfoldable pub block_key_range : ℕ → ℕ → Bytes × Bytes
unfolding block_key
block_key_range start_height end_height =
    (block_key start_height, block_key ((end_height + 1) % uint64_limit))

module _ {Hash : Type 0} ⦃hash_hex : Hex Hash⦄ where
  unfoldable pub receipt_key : Hash → Bytes
  receipt_key tx_hash = prefix_receipts ++ hex tx_hash

  unfoldable pub contract_address_key : Hash → Bytes
  contract_address_key tx_hash = prefix_contract_addr ++ hex tx_hash

  unfoldable pub transaction_hash_index_key : Hash → Bytes
  transaction_hash_index_key tx_hash = prefix_tx_hash ++ hex tx_hash

  unfoldable pub block_hash_index_key : Hash → Bytes
  block_hash_index_key block_hash = prefix_block_hash ++ hex block_hash

module _ {Address : Type 0} ⦃address_hex : Hex Address⦄ where
  unfoldable pub address_transaction_key : Address → ℕ → Bytes
  address_transaction_key addr seq = prefix_addr ++ hex addr ++ slash ∷ padded 20 seq

  unfoldable pub address_transaction_key_prefix : Address → Bytes
  address_transaction_key_prefix addr = prefix_addr ++ hex addr ++ slash ∷ []

  unfoldable pub address_balance_key : Address → ℕ → Bytes
  address_balance_key addr seq =
      bytes "/index/balance/" ++ hex addr ++ bytes "/history/" ++ padded 20 seq

  unfoldable pub address_balance_latest_key : Address → Bytes
  address_balance_latest_key addr = bytes "/index/balance/" ++ hex addr ++ bytes "/latest"

  unfoldable pub address_balance_key_prefix : Address → Bytes
  address_balance_key_prefix addr = bytes "/index/balance/" ++ hex addr ++ bytes "/history/"
