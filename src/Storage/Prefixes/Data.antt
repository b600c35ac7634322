-- ===== src/Storage/Prefixes/Data.antt =====
-- The prefixes of data keys of pkg/storage/schema.go.
use indexer_go.Text.{Bytes, bytes}

abbrev pub prefix_data : Bytes
prefix_data = bytes "/data/"

abbrev pub prefix_blocks : Bytes
prefix_blocks = bytes "/data/blocks/"

abbrev pub prefix_txs : Bytes
prefix_txs = bytes "/data/txs/"

abbrev pub prefix_receipts : Bytes
prefix_receipts = bytes "/data/receipts/"

abbrev pub prefix_contract_addr : Bytes
prefix_contract_addr = bytes "/data/contractaddr/"

abbrev pub prefix_sys_mint : Bytes
prefix_sys_mint = bytes "/data/syscontracts/mint/"

abbrev pub prefix_sys_burn : Bytes
prefix_sys_burn = bytes "/data/syscontracts/burn/"

abbrev pub prefix_sys_minter_config : Bytes
prefix_sys_minter_config = bytes "/data/syscontracts/minterconfig/"

abbrev pub prefix_sys_validator : Bytes
prefix_sys_validator = bytes "/data/syscontracts/validator/"

abbrev pub prefix_sys_proposal : Bytes
prefix_sys_proposal = bytes "/data/syscontracts/proposal/"

abbrev pub prefix_sys_vote : Bytes
prefix_sys_vote = bytes "/data/syscontracts/vote/"

abbrev pub prefix_sys_blacklist : Bytes
prefix_sys_blacklist = bytes "/data/syscontracts/blacklist/"

abbrev pub prefix_sys_member : Bytes
prefix_sys_member = bytes "/data/syscontracts/member/"

abbrev pub prefix_sys_gas_tip : Bytes
prefix_sys_gas_tip = bytes "/data/syscontracts/gastip/"

abbrev pub prefix_sys_emergency : Bytes
prefix_sys_emergency = bytes "/data/syscontracts/emergency/"

abbrev pub prefix_sys_deposit_mint : Bytes
prefix_sys_deposit_mint = bytes "/data/syscontracts/depositmint/"

abbrev pub prefix_sys_max_proposals : Bytes
prefix_sys_max_proposals = bytes "/data/syscontracts/maxproposals/"

abbrev pub prefix_sys_proposal_skipped : Bytes
prefix_sys_proposal_skipped = bytes "/data/syscontracts/proposalskipped/"

abbrev pub prefix_sys_authorized_accounts : Bytes
prefix_sys_authorized_accounts = bytes "/data/syscontracts/authorizedaccounts/"

abbrev pub prefix_wbft_extra : Bytes
prefix_wbft_extra = bytes "/data/wbft/extra/"

abbrev pub prefix_wbft_epoch : Bytes
prefix_wbft_epoch = bytes "/data/wbft/epoch/"

abbrev pub prefix_wbft_validator_stats : Bytes
prefix_wbft_validator_stats = bytes "/data/wbft/validator/stats/"

abbrev pub prefix_wbft_validator_activity : Bytes
prefix_wbft_validator_activity = bytes "/data/wbft/validator/activity/"

abbrev pub prefix_contract_creation : Bytes
prefix_contract_creation = bytes "/data/contract/creation/"

abbrev pub prefix_internal_tx : Bytes
prefix_internal_tx = bytes "/data/internal/"

abbrev pub prefix_erc20_transfer : Bytes
prefix_erc20_transfer = bytes "/data/erc20/transfer/"

abbrev pub prefix_erc721_transfer : Bytes
prefix_erc721_transfer = bytes "/data/erc721/transfer/"

abbrev pub prefix_logs : Bytes
prefix_logs = bytes "/data/logs/"

abbrev pub prefix_abi : Bytes
prefix_abi = bytes "/data/abi/"

abbrev pub prefix_contract_verification : Bytes
prefix_contract_verification = bytes "/data/verification/"

abbrev pub prefix_fee_delegation : Bytes
prefix_fee_delegation = bytes "/data/feedelegation/"

abbrev pub prefix_notification_setting : Bytes
prefix_notification_setting = bytes "/data/notification/setting/"

abbrev pub prefix_notification : Bytes
prefix_notification = bytes "/data/notification/notif/"

abbrev pub prefix_notification_history : Bytes
prefix_notification_history = bytes "/data/notification/history/"

abbrev pub prefix_notification_stats : Bytes
prefix_notification_stats = bytes "/data/notification/stats/"

abbrev pub prefix_token_metadata : Bytes
prefix_token_metadata = bytes "/data/token/metadata/"

abbrev pub prefix_token_holder : Bytes
prefix_token_holder = bytes "/data/token/holder/"

abbrev pub prefix_token_holder_stats : Bytes
prefix_token_holder_stats = bytes "/data/token/holderstats/"

abbrev pub prefix_set_code_auth : Bytes
prefix_set_code_auth = bytes "/data/setcode/auth/"

abbrev pub prefix_set_code_delegation : Bytes
prefix_set_code_delegation = bytes "/data/setcode/delegation/"

abbrev pub prefix_set_code_stats : Bytes
prefix_set_code_stats = bytes "/data/setcode/stats/"

abbrev pub prefix_module : Bytes
prefix_module = bytes "/data/module/"

abbrev pub prefix_module_stats : Bytes
prefix_module_stats = bytes "/data/module/stats/"

abbrev pub prefix_user_op : Bytes
prefix_user_op = bytes "/data/userop/"

abbrev pub prefix_bundler_stats : Bytes
prefix_bundler_stats = bytes "/data/bundler/stats/"

abbrev pub prefix_factory_stats : Bytes
prefix_factory_stats = bytes "/data/factory/stats/"

abbrev pub prefix_paymaster_stats : Bytes
prefix_paymaster_stats = bytes "/data/paymaster/stats/"

abbrev pub prefix_smart_account : Bytes
prefix_smart_account = bytes "/data/smartaccount/"
