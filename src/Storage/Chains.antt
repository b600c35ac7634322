-- ===== src/Storage/Chains.antt =====
-- Keys scoped to one chain of pkg/storage/schema.go.
use indexer_go.Base.{ℕ, [], ◌∷◌, ◌++◌}
use indexer_go.Text.{Bytes, bytes, slash, decimal, padded}
use indexer_go.Storage.Hex.{Hex, hex}
use indexer_go.Storage.Prefixes.{prefix_chain}

unfoldable pub chain_latest_height_key : Bytes → Bytes
chain_latest_height_key chain_id = prefix_chain ++ chain_id ++ bytes "/meta/lh"

unfoldable pub chain_block_key : Bytes → ℕ → Bytes
chain_block_key chain_id height =
    prefix_chain ++ chain_id ++ bytes "/data/blocks/" ++ decimal height

unfoldable pub chain_transaction_key : Bytes → ℕ → ℕ → Bytes
chain_transaction_key chain_id height tx_index =
    prefix_chain ++ chain_id ++ bytes "/data/txs/" ++ decimal height ++ slash ∷ decimal tx_index

unfoldable pub chain_log_key : Bytes → ℕ → ℕ → ℕ → Bytes
chain_log_key chain_id block_number tx_index log_index =
    prefix_chain
    ++ chain_id
    ++ bytes "/data/logs/"
    ++ padded 20 block_number
    ++ slash ∷ padded 6 tx_index
    ++ slash ∷ padded 6 log_index

unfoldable pub chain_block_count_key : Bytes → Bytes
chain_block_count_key chain_id = prefix_chain ++ chain_id ++ bytes "/meta/bc"

unfoldable pub chain_transaction_count_key : Bytes → Bytes
chain_transaction_count_key chain_id = prefix_chain ++ chain_id ++ bytes "/meta/tc"

unfoldable pub chain_block_key_prefix : Bytes → Bytes
chain_block_key_prefix chain_id = prefix_chain ++ chain_id ++ bytes "/data/blocks/"

unfoldable pub chain_log_key_prefix : Bytes → Bytes
chain_log_key_prefix chain_id = prefix_chain ++ chain_id ++ bytes "/data/logs/"

module _ {Hash : Type 0} ⦃hash_hex : Hex Hash⦄ where
  unfoldable pub chain_receipt_key : Bytes → Hash → Bytes
  chain_receipt_key chain_id tx_hash =
      prefix_chain ++ chain_id ++ bytes "/data/receipts/" ++ hex tx_hash

  unfoldable pub chain_tx_hash_index_key : Bytes → Hash → Bytes
  chain_tx_hash_index_key chain_id tx_hash =
      prefix_chain ++ chain_id ++ bytes "/index/txh/" ++ hex tx_hash

  unfoldable pub chain_block_hash_index_key : Bytes → Hash → Bytes
  chain_block_hash_index_key chain_id block_hash =
      prefix_chain ++ chain_id ++ bytes "/index/blockh/" ++ hex block_hash

  unfoldable pub chain_log_topic0_index_key : Bytes → Hash → ℕ → ℕ → ℕ → Bytes
  chain_log_topic0_index_key chain_id topic block_number tx_index log_index =
      prefix_chain
      ++ chain_id
      ++ bytes "/index/logs/topic0/"
      ++ hex topic
      ++ slash ∷ padded 20 block_number
      ++ slash ∷ padded 6 tx_index
      ++ slash ∷ padded 6 log_index

  unfoldable pub chain_log_topic0_index_key_prefix : Bytes → Hash → Bytes
  chain_log_topic0_index_key_prefix chain_id topic =
      prefix_chain ++ chain_id ++ bytes "/index/logs/topic0/" ++ hex topic ++ slash ∷ []

  unfoldable pub chain_erc20_transfer_key : Bytes → Hash → ℕ → Bytes
  chain_erc20_transfer_key chain_id tx_hash log_index =
      prefix_chain
      ++ chain_id
      ++ bytes "/data/erc20/transfer/"
      ++ hex tx_hash
      ++ slash ∷ padded 6 log_index

  unfoldable pub chain_erc721_transfer_key : Bytes → Hash → ℕ → Bytes
  chain_erc721_transfer_key chain_id tx_hash log_index =
      prefix_chain
      ++ chain_id
      ++ bytes "/data/erc721/transfer/"
      ++ hex tx_hash
      ++ slash ∷ padded 6 log_index

module _ {Address : Type 0} ⦃address_hex : Hex Address⦄ where
  unfoldable pub chain_address_transaction_key : Bytes → Address → ℕ → Bytes
  chain_address_transaction_key chain_id addr seq =
      prefix_chain ++ chain_id ++ bytes "/index/addr/" ++ hex addr ++ slash ∷ padded 20 seq

  unfoldable pub chain_address_index_key_prefix : Bytes → Address → Bytes
  chain_address_index_key_prefix chain_id addr =
      prefix_chain ++ chain_id ++ bytes "/index/addr/" ++ hex addr ++ slash ∷ []

  unfoldable pub chain_log_address_index_key : Bytes → Address → ℕ → ℕ → ℕ → Bytes
  chain_log_address_index_key chain_id address block_number tx_index log_index =
      prefix_chain
      ++ chain_id
      ++ bytes "/index/logs/addr/"
      ++ hex address
      ++ slash ∷ padded 20 block_number
      ++ slash ∷ padded 6 tx_index
      ++ slash ∷ padded 6 log_index

  unfoldable pub chain_log_address_index_key_prefix : Bytes → Address → Bytes
  chain_log_address_index_key_prefix chain_id address =
      prefix_chain ++ chain_id ++ bytes "/index/logs/addr/" ++ hex address ++ slash ∷ []
