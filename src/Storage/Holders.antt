-- ===== src/Storage/Holders.antt =====
-- Keys of set-code records and of token holders of pkg/storage/schema.go.
use indexer_go.Base.{[], ◌∷◌, ◌++◌}
use indexer_go.Text.{Bytes, slash}
use indexer_go.Storage.Hex.{Hex, hex}
use indexer_go.Storage.Prefixes.{
  prefix_idx_set_code_authority, prefix_idx_set_code_block, prefix_idx_set_code_target,
  prefix_idx_set_code_tx, prefix_idx_token_holder_by_holder, prefix_idx_token_holder_by_token,
  prefix_set_code_auth, prefix_set_code_delegation, prefix_set_code_stats, prefix_token_holder,
  prefix_token_holder_stats,
}

module _ {Hash : Type 0} ⦃hash_hex : Hex Hash⦄ where
  unfoldable pub set_code_authorization_key_prefix : Hash → Bytes
  set_code_authorization_key_prefix tx_hash = prefix_set_code_auth ++ hex tx_hash ++ slash ∷ []

  unfoldable pub set_code_tx_index_key_prefix : Hash → Bytes
  set_code_tx_index_key_prefix tx_hash = prefix_idx_set_code_tx ++ hex tx_hash ++ slash ∷ []

unfoldable pub set_code_auth_key_prefix : Bytes
set_code_auth_key_prefix = prefix_set_code_auth

unfoldable pub set_code_delegation_state_key_prefix : Bytes
set_code_delegation_state_key_prefix = prefix_set_code_delegation

unfoldable pub set_code_stats_key_prefix : Bytes
set_code_stats_key_prefix = prefix_set_code_stats

unfoldable pub set_code_block_index_all_prefix : Bytes
set_code_block_index_all_prefix = prefix_idx_set_code_block

module _ {Address : Type 0} ⦃address_hex : Hex Address⦄ where
  unfoldable pub set_code_delegation_state_key : Address → Bytes
  set_code_delegation_state_key address = prefix_set_code_delegation ++ hex address

  unfoldable pub set_code_stats_key : Address → Bytes
  set_code_stats_key address = prefix_set_code_stats ++ hex address

  unfoldable pub set_code_target_index_key_prefix : Address → Bytes
  set_code_target_index_key_prefix target = prefix_idx_set_code_target ++ hex target ++ slash ∷ []

  unfoldable pub set_code_authority_index_key_prefix : Address → Bytes
  set_code_authority_index_key_prefix authority =
      prefix_idx_set_code_authority ++ hex authority ++ slash ∷ []

  unfoldable pub token_holder_key : Address → Address → Bytes
  token_holder_key token holder = prefix_token_holder ++ hex token ++ slash ∷ hex holder

  unfoldable pub token_holder_key_prefix : Address → Bytes
  token_holder_key_prefix token = prefix_token_holder ++ hex token ++ slash ∷ []

  unfoldable pub token_holder_stats_key : Address → Bytes
  token_holder_stats_key token = prefix_token_holder_stats ++ hex token

  unfoldable pub token_holder_by_token_index_prefix : Address → Bytes
  token_holder_by_token_index_prefix token =
      prefix_idx_token_holder_by_token ++ hex token ++ slash ∷ []

  unfoldable pub token_holder_by_holder_index_key : Address → Address → Bytes
  token_holder_by_holder_index_key holder token =
      prefix_idx_token_holder_by_holder ++ hex holder ++ slash ∷ hex token

  unfoldable pub token_holder_by_holder_index_prefix : Address → Bytes
  token_holder_by_holder_index_prefix holder =
      prefix_idx_token_holder_by_holder ++ hex holder ++ slash ∷ []
