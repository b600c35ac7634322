-- ===== src/Storage/Contracts.antt =====
-- Keys of contract creations, internal transactions and token transfers of pkg/storage/schema.go.
use indexer_go.Base.{ℕ, [], ◌∷◌, ◌++◌}
use indexer_go.Text.{Bytes, slash, padded}
use indexer_go.Storage.Hex.{Hex, hex}
use indexer_go.Storage.Prefixes.{
  prefix_contract_creation, prefix_erc20_transfer, prefix_erc721_transfer,
  prefix_idx_contract_block, prefix_idx_contract_creator, prefix_idx_erc20_from,
  prefix_idx_erc20_to, prefix_idx_erc20_token, prefix_idx_erc721_from, prefix_idx_erc721_owner,
  prefix_idx_erc721_to, prefix_idx_erc721_token, prefix_idx_erc721_token_owner,
  prefix_idx_internal_block, prefix_idx_internal_from, prefix_idx_internal_to,
  prefix_idx_wbft_signer_commit, prefix_internal_tx,
}

unfoldable pub wbft_signer_commit_index_key_prefix : ℕ → Bytes
wbft_signer_commit_index_key_prefix block_number =
    prefix_idx_wbft_signer_commit ++ padded 20 block_number ++ slash ∷ []

module _ {Address : Type 0} ⦃address_hex : Hex Address⦄ where
  unfoldable pub contract_creation_key : Address → Bytes
  contract_creation_key contract_address = prefix_contract_creation ++ hex contract_address

  unfoldable pub contract_block_index_key : ℕ → Address → Bytes
  contract_block_index_key block_number contract_address =
      prefix_idx_contract_block ++ padded 20 block_number ++ slash ∷ hex contract_address

  unfoldable pub contract_creator_index_key_prefix : Address → Bytes
  contract_creator_index_key_prefix creator =
      prefix_idx_contract_creator ++ hex creator ++ slash ∷ []

  unfoldable pub internal_tx_from_index_key_prefix : Address → Bytes
  internal_tx_from_index_key_prefix sender = prefix_idx_internal_from ++ hex sender ++ slash ∷ []

  unfoldable pub internal_tx_to_index_key_prefix : Address → Bytes
  internal_tx_to_index_key_prefix recipient = prefix_idx_internal_to ++ hex recipient ++ slash ∷ []

  unfoldable pub erc20_token_index_key : Address → ℕ → ℕ → Bytes
  erc20_token_index_key token_address block_number log_index =
      prefix_idx_erc20_token
      ++ hex token_address
      ++ slash ∷ padded 20 block_number
      ++ slash ∷ padded 6 log_index

  unfoldable pub erc20_from_index_key : Address → ℕ → ℕ → Bytes
  erc20_from_index_key sender block_number log_index =
      prefix_idx_erc20_from
      ++ hex sender
      ++ slash ∷ padded 20 block_number
      ++ slash ∷ padded 6 log_index

  unfoldable pub erc20_to_index_key : Address → ℕ → ℕ → Bytes
  erc20_to_index_key recipient block_number log_index =
      prefix_idx_erc20_to
      ++ hex recipient
      ++ slash ∷ padded 20 block_number
      ++ slash ∷ padded 6 log_index

  unfoldable pub erc20_token_index_key_prefix : Address → Bytes
  erc20_token_index_key_prefix token_address =
      prefix_idx_erc20_token ++ hex token_address ++ slash ∷ []

  unfoldable pub erc20_from_index_key_prefix : Address → Bytes
  erc20_from_index_key_prefix sender = prefix_idx_erc20_from ++ hex sender ++ slash ∷ []

  unfoldable pub erc20_to_index_key_prefix : Address → Bytes
  erc20_to_index_key_prefix recipient = prefix_idx_erc20_to ++ hex recipient ++ slash ∷ []

  unfoldable pub erc721_token_index_key : Address → ℕ → ℕ → Bytes
  erc721_token_index_key token_address block_number log_index =
      prefix_idx_erc721_token
      ++ hex token_address
      ++ slash ∷ padded 20 block_number
      ++ slash ∷ padded 6 log_index

  unfoldable pub erc721_from_index_key : Address → ℕ → ℕ → Bytes
  erc721_from_index_key sender block_number log_index =
      prefix_idx_erc721_from
      ++ hex sender
      ++ slash ∷ padded 20 block_number
      ++ slash ∷ padded 6 log_index

  unfoldable pub erc721_to_index_key : Address → ℕ → ℕ → Bytes
  erc721_to_index_key recipient block_number log_index =
      prefix_idx_erc721_to
      ++ hex recipient
      ++ slash ∷ padded 20 block_number
      ++ slash ∷ padded 6 log_index

  unfoldable pub erc721_token_owner_key : Address → Bytes → Bytes
  erc721_token_owner_key token_address token_id =
      prefix_idx_erc721_token_owner ++ hex token_address ++ slash ∷ token_id

  unfoldable pub erc721_token_index_key_prefix : Address → Bytes
  erc721_token_index_key_prefix token_address =
      prefix_idx_erc721_token ++ hex token_address ++ slash ∷ []

  unfoldable pub erc721_from_index_key_prefix : Address → Bytes
  erc721_from_index_key_prefix sender = prefix_idx_erc721_from ++ hex sender ++ slash ∷ []

  unfoldable pub erc721_to_index_key_prefix : Address → Bytes
  erc721_to_index_key_prefix recipient = prefix_idx_erc721_to ++ hex recipient ++ slash ∷ []

  unfoldable pub erc721_owner_index_key : Address → Address → Bytes → Bytes
  erc721_owner_index_key owner contract_address token_id =
      prefix_idx_erc721_owner ++ hex owner ++ slash ∷ hex contract_address ++ slash ∷ token_id

  unfoldable pub erc721_owner_index_key_prefix : Address → Bytes
  erc721_owner_index_key_prefix owner = prefix_idx_erc721_owner ++ hex owner ++ slash ∷ []

module _ {Address Hash : Type 0} ⦃address_hex : Hex Address⦄ ⦃hash_hex : Hex Hash⦄ where
  unfoldable pub contract_creator_index_key : Address → ℕ → Hash → Bytes
  contract_creator_index_key creator block_number tx_hash =
      prefix_idx_contract_creator
      ++ hex creator
      ++ slash ∷ padded 20 block_number
      ++ slash ∷ hex tx_hash

  unfoldable pub internal_tx_from_index_key : Address → ℕ → Hash → Bytes
  internal_tx_from_index_key sender block_number tx_hash =
      prefix_idx_internal_from
      ++ hex sender
      ++ slash ∷ padded 20 block_number
      ++ slash ∷ hex tx_hash

  unfoldable pub internal_tx_to_index_key : Address → ℕ → Hash → Bytes
  internal_tx_to_index_key recipient block_number tx_hash =
      prefix_idx_internal_to
      ++ hex recipient
      ++ slash ∷ padded 20 block_number
      ++ slash ∷ hex tx_hash

module _ {Hash : Type 0} ⦃hash_hex : Hex Hash⦄ where
  unfoldable pub internal_transaction_key_prefix : Hash → Bytes
  internal_transaction_key_prefix tx_hash = prefix_internal_tx ++ hex tx_hash ++ slash ∷ []

  unfoldable pub internal_tx_block_index_key : ℕ → Hash → Bytes
  internal_tx_block_index_key block_number tx_hash =
      prefix_idx_internal_block ++ padded 20 block_number ++ slash ∷ hex tx_hash

  unfoldable pub erc20_transfer_key : Hash → ℕ → Bytes
  erc20_transfer_key tx_hash log_index =
      prefix_erc20_transfer ++ hex tx_hash ++ slash ∷ padded 6 log_index

  unfoldable pub erc721_transfer_key : Hash → ℕ → Bytes
  erc721_transfer_key tx_hash log_index =
      prefix_erc721_transfer ++ hex tx_hash ++ slash ∷ padded 6 log_index
