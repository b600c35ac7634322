-- ===== src/Storage/Services.antt =====
-- Keys of fee delegation, notifications and token metadata of pkg/storage/schema.go.
use indexer_go.Base.{[], ◌∷◌, ◌++◌}
use indexer_go.Text.{Bytes, slash}
use indexer_go.Storage.Hex.{Hex, hex}
use indexer_go.Storage.Prefixes.{
  prefix_fee_delegation, prefix_idx_fee_delegation_payer, prefix_idx_notification_pending,
  prefix_idx_notification_setting, prefix_idx_notification_status, prefix_idx_token_name,
  prefix_idx_token_standard, prefix_notification, prefix_notification_history,
  prefix_notification_setting, prefix_notification_stats, prefix_token_metadata,
}

module _ {Hash : Type 0} ⦃hash_hex : Hex Hash⦄ where
  unfoldable pub fee_delegation_meta_key : Hash → Bytes
  fee_delegation_meta_key tx_hash = prefix_fee_delegation ++ hex tx_hash

module _ {Address : Type 0} ⦃address_hex : Hex Address⦄ where
  unfoldable pub fee_delegation_payer_prefix : Address → Bytes
  fee_delegation_payer_prefix fee_payer =
      prefix_idx_fee_delegation_payer ++ hex fee_payer ++ slash ∷ []

  unfoldable pub token_metadata_key : Address → Bytes
  token_metadata_key address = prefix_token_metadata ++ hex address

  unfoldable pub token_standard_index_key : Bytes → Address → Bytes
  token_standard_index_key standard address =
      prefix_idx_token_standard ++ standard ++ slash ∷ hex address

unfoldable pub notification_setting_key : Bytes → Bytes
notification_setting_key id = prefix_notification_setting ++ id

unfoldable pub notification_setting_key_prefix : Bytes
notification_setting_key_prefix = prefix_notification_setting

unfoldable pub notification_key : Bytes → Bytes
notification_key id = prefix_notification ++ id

unfoldable pub notification_key_prefix : Bytes
notification_key_prefix = prefix_notification

unfoldable pub notification_history_key_prefix : Bytes → Bytes
notification_history_key_prefix notification_id =
    prefix_notification_history ++ notification_id ++ slash ∷ []

unfoldable pub notification_stats_key : Bytes → Bytes
notification_stats_key setting_id = prefix_notification_stats ++ setting_id

unfoldable pub notification_status_index_key_prefix : Bytes → Bytes
notification_status_index_key_prefix status = prefix_idx_notification_status ++ status ++ slash ∷ []

unfoldable pub notification_setting_index_key_prefix : Bytes → Bytes
notification_setting_index_key_prefix setting_id =
    prefix_idx_notification_setting ++ setting_id ++ slash ∷ []

unfoldable pub notification_pending_index_key_prefix : Bytes
notification_pending_index_key_prefix = prefix_idx_notification_pending

unfoldable pub token_metadata_key_prefix : Bytes
token_metadata_key_prefix = prefix_token_metadata

unfoldable pub token_standard_index_key_prefix : Bytes → Bytes
token_standard_index_key_prefix standard = prefix_idx_token_standard ++ standard ++ slash ∷ []

unfoldable pub token_search_index_key_prefix : Bytes
token_search_index_key_prefix = prefix_idx_token_name
