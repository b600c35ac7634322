-- ===== src/Storage/System.antt =====
-- Keys of the system contracts' events and indexes of pkg/storage/schema.go.
use indexer_go.Base.{ℕ, [], ◌∷◌, ◌++◌}
use indexer_go.Text.{Bytes, slash, decimal, padded}
use indexer_go.Storage.Hex.{Hex, hex}
use indexer_go.Storage.Prefixes.{
  prefix_idx_blacklist_active, prefix_idx_burn_burner, prefix_idx_mint_minter,
  prefix_idx_minter_active, prefix_idx_proposal_status, prefix_idx_total_supply,
  prefix_idx_validator_active, prefix_sys_authorized_accounts, prefix_sys_blacklist,
  prefix_sys_burn, prefix_sys_deposit_mint, prefix_sys_emergency, prefix_sys_gas_tip,
  prefix_sys_max_proposals, prefix_sys_member, prefix_sys_mint, prefix_sys_minter_config,
  prefix_sys_proposal, prefix_sys_proposal_skipped, prefix_sys_validator, prefix_sys_vote,
}

unfoldable pub mint_event_key : ℕ → ℕ → ℕ → Bytes
mint_event_key block_number tx_index log_index =
    prefix_sys_mint
    ++ padded 20 block_number
    ++ slash ∷ decimal tx_index
    ++ slash ∷ decimal log_index

unfoldable pub burn_event_key : ℕ → ℕ → ℕ → Bytes
burn_event_key block_number tx_index log_index =
    prefix_sys_burn
    ++ padded 20 block_number
    ++ slash ∷ decimal tx_index
    ++ slash ∷ decimal log_index

unfoldable pub gas_tip_update_event_key : ℕ → ℕ → Bytes
gas_tip_update_event_key block_number tx_index =
    prefix_sys_gas_tip ++ padded 20 block_number ++ slash ∷ decimal tx_index

unfoldable pub deposit_mint_proposal_key : Bytes → Bytes
deposit_mint_proposal_key proposal_id = prefix_sys_deposit_mint ++ proposal_id

unfoldable pub total_supply_key : Bytes
total_supply_key = prefix_idx_total_supply

unfoldable pub mint_event_key_prefix : Bytes
mint_event_key_prefix = prefix_sys_mint

unfoldable pub burn_event_key_prefix : Bytes
burn_event_key_prefix = prefix_sys_burn

module _ {Address : Type 0} ⦃address_hex : Hex Address⦄ where
  unfoldable pub minter_config_event_key : Address → ℕ → Bytes
  minter_config_event_key minter block_number =
      prefix_sys_minter_config ++ hex minter ++ slash ∷ padded 20 block_number

  unfoldable pub validator_change_event_key : Address → ℕ → Bytes
  validator_change_event_key validator block_number =
      prefix_sys_validator ++ hex validator ++ slash ∷ padded 20 block_number

  unfoldable pub proposal_key : Address → Bytes → Bytes
  proposal_key contract proposal_id = prefix_sys_proposal ++ hex contract ++ slash ∷ proposal_id

  unfoldable pub proposal_vote_key : Address → Bytes → Address → Bytes
  proposal_vote_key contract proposal_id voter =
      prefix_sys_vote ++ hex contract ++ slash ∷ proposal_id ++ slash ∷ hex voter

  unfoldable pub blacklist_event_key : Address → ℕ → Bytes
  blacklist_event_key address block_number =
      prefix_sys_blacklist ++ hex address ++ slash ∷ padded 20 block_number

  unfoldable pub member_change_event_key : Address → ℕ → ℕ → Bytes
  member_change_event_key contract block_number tx_index =
      prefix_sys_member
      ++ hex contract
      ++ slash ∷ padded 20 block_number
      ++ slash ∷ decimal tx_index

  unfoldable pub emergency_pause_event_key : Address → ℕ → ℕ → Bytes
  emergency_pause_event_key contract block_number tx_index =
      prefix_sys_emergency
      ++ hex contract
      ++ slash ∷ padded 20 block_number
      ++ slash ∷ decimal tx_index

  unfoldable pub max_proposals_update_event_key : Address → ℕ → ℕ → Bytes
  max_proposals_update_event_key contract block_number tx_index =
      prefix_sys_max_proposals
      ++ hex contract
      ++ slash ∷ padded 20 block_number
      ++ slash ∷ decimal tx_index

  unfoldable pub max_proposals_update_event_key_prefix : Address → Bytes
  max_proposals_update_event_key_prefix contract =
      prefix_sys_max_proposals ++ hex contract ++ slash ∷ []

  unfoldable pub proposal_execution_skipped_event_key : Address → ℕ → ℕ → Bytes
  proposal_execution_skipped_event_key contract block_number tx_index =
      prefix_sys_proposal_skipped
      ++ hex contract
      ++ slash ∷ padded 20 block_number
      ++ slash ∷ decimal tx_index

  unfoldable pub proposal_execution_skipped_event_key_prefix : Address → Bytes
  proposal_execution_skipped_event_key_prefix contract =
      prefix_sys_proposal_skipped ++ hex contract ++ slash ∷ []

  unfoldable pub authorized_account_event_key : Address → ℕ → ℕ → Bytes
  authorized_account_event_key contract block_number tx_index =
      prefix_sys_authorized_accounts
      ++ hex contract
      ++ slash ∷ padded 20 block_number
      ++ slash ∷ decimal tx_index

  unfoldable pub authorized_account_event_key_prefix : Address → Bytes
  authorized_account_event_key_prefix contract =
      prefix_sys_authorized_accounts ++ hex contract ++ slash ∷ []

  unfoldable pub mint_minter_index_key : Address → ℕ → Bytes
  mint_minter_index_key minter block_number =
      prefix_idx_mint_minter ++ hex minter ++ slash ∷ padded 20 block_number

  unfoldable pub burn_burner_index_key : Address → ℕ → Bytes
  burn_burner_index_key burner block_number =
      prefix_idx_burn_burner ++ hex burner ++ slash ∷ padded 20 block_number

  unfoldable pub proposal_status_index_key : Address → ℕ → Bytes → Bytes
  proposal_status_index_key contract status proposal_id =
      prefix_idx_proposal_status ++ hex contract ++ slash ∷ decimal status ++ slash ∷ proposal_id

  unfoldable pub blacklist_active_index_key : Address → Bytes
  blacklist_active_index_key address = prefix_idx_blacklist_active ++ hex address

  unfoldable pub minter_active_index_key : Address → Bytes
  minter_active_index_key address = prefix_idx_minter_active ++ hex address

  unfoldable pub validator_active_index_key : Address → Bytes
  validator_active_index_key address = prefix_idx_validator_active ++ hex address

  unfoldable pub minter_config_event_key_prefix : Address → Bytes
  minter_config_event_key_prefix minter = prefix_sys_minter_config ++ hex minter ++ slash ∷ []

  unfoldable pub validator_change_event_key_prefix : Address → Bytes
  validator_change_event_key_prefix validator = prefix_sys_validator ++ hex validator ++ slash ∷ []

  unfoldable pub proposal_key_prefix : Address → Bytes
  proposal_key_prefix contract = prefix_sys_proposal ++ hex contract ++ slash ∷ []

  unfoldable pub proposal_vote_key_prefix : Address → Bytes → Bytes
  proposal_vote_key_prefix contract proposal_id =
      prefix_sys_vote ++ hex contract ++ slash ∷ proposal_id ++ slash ∷ []

  unfoldable pub blacklist_event_key_prefix : Address → Bytes
  blacklist_event_key_prefix address = prefix_sys_blacklist ++ hex address ++ slash ∷ []

  unfoldable pub member_change_event_key_prefix : Address → Bytes
  member_change_event_key_prefix contract = prefix_sys_member ++ hex contract ++ slash ∷ []
