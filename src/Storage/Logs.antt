-- ===== src/Storage/Logs.antt =====
-- Keys of event logs, ABIs and contract verifications of pkg/storage/schema.go.
use indexer_go.Base.{ℕ, [], ◌∷◌, ◌++◌}
use indexer_go.Text.{Bytes, slash, padded}
use indexer_go.Storage.Hex.{Hex, hex}
use indexer_go.Storage.Prefixes.{
  prefix_abi, prefix_contract_verification, prefix_idx_logs_addr, prefix_idx_logs_block,
  prefix_idx_logs_topic0, prefix_idx_logs_topic1, prefix_idx_logs_topic2, prefix_idx_logs_topic3,
  prefix_idx_verified_contracts, prefix_logs,
}

unfoldable pub log_key : ℕ → ℕ → ℕ → Bytes
log_key block_number tx_index log_index =
    prefix_logs ++ padded 20 block_number ++ slash ∷ padded 6 tx_index ++ slash ∷ padded 6 log_index

unfoldable pub log_key_prefix : Bytes
log_key_prefix = prefix_logs

unfoldable pub log_block_key_prefix : ℕ → Bytes
log_block_key_prefix block_number = prefix_logs ++ padded 20 block_number ++ slash ∷ []

unfoldable pub log_block_index_key : ℕ → ℕ → ℕ → Bytes
log_block_index_key block_number tx_index log_index =
    prefix_idx_logs_block
    ++ padded 20 block_number
    ++ slash ∷ padded 6 tx_index
    ++ slash ∷ padded 6 log_index

unfoldable pub log_block_index_key_prefix : ℕ → Bytes
log_block_index_key_prefix block_number =
    prefix_idx_logs_block ++ padded 20 block_number ++ slash ∷ []

unfoldable pub log_block_range_index_key_prefix : ℕ → Bytes
log_block_range_index_key_prefix from_block =
    prefix_idx_logs_block ++ padded 20 from_block ++ slash ∷ []

unfoldable pub abi_key_prefix : Bytes
abi_key_prefix = prefix_abi

unfoldable pub contract_verification_key_prefix : Bytes
contract_verification_key_prefix = prefix_contract_verification

unfoldable pub verified_contract_index_key_prefix : Bytes
verified_contract_index_key_prefix = prefix_idx_verified_contracts

module _ {Address : Type 0} ⦃address_hex : Hex Address⦄ where
  unfoldable pub log_address_index_key : Address → ℕ → ℕ → ℕ → Bytes
  log_address_index_key address block_number tx_index log_index =
      prefix_idx_logs_addr
      ++ hex address
      ++ slash ∷ padded 20 block_number
      ++ slash ∷ padded 6 tx_index
      ++ slash ∷ padded 6 log_index

  unfoldable pub log_address_index_key_prefix : Address → Bytes
  log_address_index_key_prefix address = prefix_idx_logs_addr ++ hex address ++ slash ∷ []

  unfoldable pub abi_key : Address → Bytes
  abi_key address = prefix_abi ++ hex address

  unfoldable pub contract_verification_key : Address → Bytes
  contract_verification_key address = prefix_contract_verification ++ hex address

module _ {Hash : Type 0} ⦃hash_hex : Hex Hash⦄ where
  unfoldable pub log_topic0_index_key : Hash → ℕ → ℕ → ℕ → Bytes
  log_topic0_index_key topic block_number tx_index log_index =
      prefix_idx_logs_topic0
      ++ hex topic
      ++ slash ∷ padded 20 block_number
      ++ slash ∷ padded 6 tx_index
      ++ slash ∷ padded 6 log_index

  unfoldable pub log_topic0_index_key_prefix : Hash → Bytes
  log_topic0_index_key_prefix topic = prefix_idx_logs_topic0 ++ hex topic ++ slash ∷ []

  unfoldable pub log_topic1_index_key : Hash → ℕ → ℕ → ℕ → Bytes
  log_topic1_index_key topic block_number tx_index log_index =
      prefix_idx_logs_topic1
      ++ hex topic
      ++ slash ∷ padded 20 block_number
      ++ slash ∷ padded 6 tx_index
      ++ slash ∷ padded 6 log_index

  unfoldable pub log_topic1_index_key_prefix : Hash → Bytes
  log_topic1_index_key_prefix topic = prefix_idx_logs_topic1 ++ hex topic ++ slash ∷ []

  unfoldable pub log_topic2_index_key : Hash → ℕ → ℕ → ℕ → Bytes
  log_topic2_index_key topic block_number tx_index log_index =
      prefix_idx_logs_topic2
      ++ hex topic
      ++ slash ∷ padded 20 block_number
      ++ slash ∷ padded 6 tx_index
      ++ slash ∷ padded 6 log_index

  unfoldable pub log_topic2_index_key_prefix : Hash → Bytes
  log_topic2_index_key_prefix topic = prefix_idx_logs_topic2 ++ hex topic ++ slash ∷ []

  unfoldable pub log_topic3_index_key : Hash → ℕ → ℕ → ℕ → Bytes
  log_topic3_index_key topic block_number tx_index log_index =
      prefix_idx_logs_topic3
      ++ hex topic
      ++ slash ∷ padded 20 block_number
      ++ slash ∷ padded 6 tx_index
      ++ slash ∷ padded 6 log_index

  unfoldable pub log_topic3_index_key_prefix : Hash → Bytes
  log_topic3_index_key_prefix topic = prefix_idx_logs_topic3 ++ hex topic ++ slash ∷ []
