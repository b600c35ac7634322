-- ===== src/Storage/Wbft.antt =====
-- Keys of the WBFT consensus data of pkg/storage/schema.go.
use indexer_go.Base.{ℕ, [], ◌∷◌, ◌++◌}
use indexer_go.Text.{Bytes, slash, decimal, padded}
use indexer_go.Storage.Hex.{Hex, hex}
use indexer_go.Storage.Prefixes.{
  key_latest_epoch, prefix_idx_blacklist_active, prefix_idx_burn_burner, prefix_idx_mint_minter,
  prefix_idx_minter_active, prefix_idx_proposal_status, prefix_idx_validator_active,
  prefix_idx_wbft_signer_commit, prefix_idx_wbft_signer_prepare, prefix_sys_emergency,
  prefix_sys_gas_tip, prefix_wbft_epoch, prefix_wbft_extra, prefix_wbft_validator_activity,
  prefix_wbft_validator_stats,
}

unfoldable pub gas_tip_update_event_key_prefix : Bytes
gas_tip_update_event_key_prefix = prefix_sys_gas_tip

unfoldable pub blacklist_active_index_key_prefix : Bytes
blacklist_active_index_key_prefix = prefix_idx_blacklist_active

unfoldable pub minter_active_index_key_prefix : Bytes
minter_active_index_key_prefix = prefix_idx_minter_active

unfoldable pub validator_active_index_key_prefix : Bytes
validator_active_index_key_prefix = prefix_idx_validator_active

unfoldable pub wbft_block_extra_key : ℕ → Bytes
wbft_block_extra_key block_number = prefix_wbft_extra ++ padded 20 block_number

unfoldable pub wbft_epoch_key : ℕ → Bytes
wbft_epoch_key epoch_number = prefix_wbft_epoch ++ padded 20 epoch_number

unfoldable pub latest_epoch_key : Bytes
latest_epoch_key = key_latest_epoch

unfoldable pub wbft_block_extra_key_prefix : Bytes
wbft_block_extra_key_prefix = prefix_wbft_extra

unfoldable pub wbft_epoch_key_prefix : Bytes
wbft_epoch_key_prefix = prefix_wbft_epoch

unfoldable pub wbft_validator_activity_all_key_prefix : Bytes
wbft_validator_activity_all_key_prefix = prefix_wbft_validator_activity

unfoldable pub wbft_signer_prepare_index_key_prefix : ℕ → Bytes
wbft_signer_prepare_index_key_prefix block_number =
    prefix_idx_wbft_signer_prepare ++ padded 20 block_number ++ slash ∷ []

module _ {Address : Type 0} ⦃address_hex : Hex Address⦄ where
  unfoldable pub emergency_pause_event_key_prefix : Address → Bytes
  emergency_pause_event_key_prefix contract = prefix_sys_emergency ++ hex contract ++ slash ∷ []

  unfoldable pub mint_minter_index_key_prefix : Address → Bytes
  mint_minter_index_key_prefix minter = prefix_idx_mint_minter ++ hex minter ++ slash ∷ []

  unfoldable pub burn_burner_index_key_prefix : Address → Bytes
  burn_burner_index_key_prefix burner = prefix_idx_burn_burner ++ hex burner ++ slash ∷ []

  unfoldable pub proposal_status_index_key_prefix : Address → ℕ → Bytes
  proposal_status_index_key_prefix contract status =
      prefix_idx_proposal_status ++ hex contract ++ slash ∷ decimal status ++ slash ∷ []

  unfoldable pub wbft_validator_stats_key : Address → ℕ → ℕ → Bytes
  wbft_validator_stats_key validator from_block to_block =
      prefix_wbft_validator_stats
      ++ hex validator
      ++ slash ∷ padded 20 from_block
      ++ b'_' ∷ padded 20 to_block

  unfoldable pub wbft_validator_activity_key : Address → ℕ → Bytes
  wbft_validator_activity_key validator block_number =
      prefix_wbft_validator_activity ++ hex validator ++ slash ∷ padded 20 block_number

  unfoldable pub wbft_signer_prepare_index_key : ℕ → Address → Bytes
  wbft_signer_prepare_index_key block_number validator =
      prefix_idx_wbft_signer_prepare ++ padded 20 block_number ++ slash ∷ hex validator

  unfoldable pub wbft_signer_commit_index_key : ℕ → Address → Bytes
  wbft_signer_commit_index_key block_number validator =
      prefix_idx_wbft_signer_commit ++ padded 20 block_number ++ slash ∷ hex validator

  unfoldable pub wbft_validator_stats_key_prefix : Address → Bytes
  wbft_validator_stats_key_prefix validator =
      prefix_wbft_validator_stats ++ hex validator ++ slash ∷ []

  unfoldable pub wbft_validator_activity_key_prefix : Address → Bytes
  wbft_validator_activity_key_prefix validator =
      prefix_wbft_validator_activity ++ hex validator ++ slash ∷ []
