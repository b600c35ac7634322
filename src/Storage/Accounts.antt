-- ===== src/Storage/Accounts.antt =====
-- Keys of modules, user operations and smart accounts of pkg/storage/schema.go.
use indexer_go.Base.{[], ◌∷◌, ◌++◌}
use indexer_go.Text.{Bytes, slash}
use indexer_go.Storage.Hex.{Hex, hex}
use indexer_go.Storage.Prefixes.{
  prefix_bundler_stats, prefix_factory_stats, prefix_idx_module_account, prefix_idx_module_block,
  prefix_idx_user_op_block, prefix_idx_user_op_bundler, prefix_idx_user_op_factory,
  prefix_idx_user_op_paymaster, prefix_idx_user_op_sender, prefix_idx_user_op_tx, prefix_module,
  prefix_module_stats, prefix_paymaster_stats, prefix_smart_account, prefix_user_op,
}

module _ {Address : Type 0} ⦃address_hex : Hex Address⦄ where
  unfoldable pub module_key : Address → Address → Bytes
  module_key account module_address = prefix_module ++ hex account ++ slash ∷ hex module_address

  unfoldable pub module_key_prefix : Address → Bytes
  module_key_prefix account = prefix_module ++ hex account ++ slash ∷ []

  unfoldable pub module_stats_key : Address → Bytes
  module_stats_key module_address = prefix_module_stats ++ hex module_address

  unfoldable pub module_account_index_key_prefix : Address → Bytes
  module_account_index_key_prefix account = prefix_idx_module_account ++ hex account ++ slash ∷ []

  unfoldable pub bundler_stats_key : Address → Bytes
  bundler_stats_key address = prefix_bundler_stats ++ hex address

  unfoldable pub factory_stats_key : Address → Bytes
  factory_stats_key address = prefix_factory_stats ++ hex address

  unfoldable pub paymaster_stats_key : Address → Bytes
  paymaster_stats_key address = prefix_paymaster_stats ++ hex address

  unfoldable pub smart_account_key : Address → Bytes
  smart_account_key address = prefix_smart_account ++ hex address

  unfoldable pub user_op_sender_index_key_prefix : Address → Bytes
  user_op_sender_index_key_prefix sender = prefix_idx_user_op_sender ++ hex sender ++ slash ∷ []

  unfoldable pub user_op_bundler_index_key_prefix : Address → Bytes
  user_op_bundler_index_key_prefix bundler = prefix_idx_user_op_bundler ++ hex bundler ++ slash ∷ []

  unfoldable pub user_op_paymaster_index_key_prefix : Address → Bytes
  user_op_paymaster_index_key_prefix paymaster =
      prefix_idx_user_op_paymaster ++ hex paymaster ++ slash ∷ []

  unfoldable pub user_op_factory_index_key_prefix : Address → Bytes
  user_op_factory_index_key_prefix factory = prefix_idx_user_op_factory ++ hex factory ++ slash ∷ []

unfoldable pub module_all_prefix : Bytes
module_all_prefix = prefix_module

unfoldable pub module_stats_key_prefix : Bytes
module_stats_key_prefix = prefix_module_stats

unfoldable pub module_block_index_all_prefix : Bytes
module_block_index_all_prefix = prefix_idx_module_block

unfoldable pub user_op_key_prefix : Bytes
user_op_key_prefix = prefix_user_op

unfoldable pub bundler_stats_key_prefix : Bytes
bundler_stats_key_prefix = prefix_bundler_stats

unfoldable pub factory_stats_key_prefix : Bytes
factory_stats_key_prefix = prefix_factory_stats

unfoldable pub paymaster_stats_key_prefix : Bytes
paymaster_stats_key_prefix = prefix_paymaster_stats

unfoldable pub smart_account_key_prefix : Bytes
smart_account_key_prefix = prefix_smart_account

unfoldable pub user_op_block_index_all_prefix : Bytes
user_op_block_index_all_prefix = prefix_idx_user_op_block

module _ {Hash : Type 0} ⦃hash_hex : Hex Hash⦄ where
  unfoldable pub user_op_key : Hash → Bytes
  user_op_key op_hash = prefix_user_op ++ hex op_hash

  unfoldable pub user_op_tx_index_key_prefix : Hash → Bytes
  user_op_tx_index_key_prefix tx_hash = prefix_idx_user_op_tx ++ hex tx_hash ++ slash ∷ []
