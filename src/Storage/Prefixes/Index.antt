-- ===== src/Storage/Prefixes/Index.antt =====
-- The prefixes of index keys of pkg/storage/schema.go.
use indexer_go.Text.{Bytes, bytes}

abbrev pub prefix_index : Bytes
prefix_index = bytes "/index/"

abbrev pub prefix_tx_hash : Bytes
prefix_tx_hash = bytes "/index/txh/"

abbrev pub prefix_addr : Bytes
prefix_addr = bytes "/index/addr/"

abbrev pub prefix_block_hash : Bytes
prefix_block_hash = bytes "/index/blockh/"

abbrev pub prefix_idx_wbft_signer_prepare : Bytes
prefix_idx_wbft_signer_prepare = bytes "/index/wbft/signers/prepare/"

abbrev pub prefix_idx_wbft_signer_commit : Bytes
prefix_idx_wbft_signer_commit = bytes "/index/wbft/signers/commit/"

abbrev pub prefix_idx_mint_minter : Bytes
prefix_idx_mint_minter = bytes "/index/syscontracts/mint_minter/"

abbrev pub prefix_idx_burn_burner : Bytes
prefix_idx_burn_burner = bytes "/index/syscontracts/burn_burner/"

abbrev pub prefix_idx_proposal_status : Bytes
prefix_idx_proposal_status = bytes "/index/syscontracts/proposal_status/"

abbrev pub prefix_idx_blacklist_active : Bytes
prefix_idx_blacklist_active = bytes "/index/syscontracts/blacklist_active/"

abbrev pub prefix_idx_minter_active : Bytes
prefix_idx_minter_active = bytes "/index/syscontracts/minter_active/"

abbrev pub prefix_idx_validator_active : Bytes
prefix_idx_validator_active = bytes "/index/syscontracts/validator_active/"

abbrev pub prefix_idx_total_supply : Bytes
prefix_idx_total_supply = bytes "/index/syscontracts/total_supply"

abbrev pub prefix_idx_contract_creator : Bytes
prefix_idx_contract_creator = bytes "/index/contract/creator/"

abbrev pub prefix_idx_contract_block : Bytes
prefix_idx_contract_block = bytes "/index/contract/block/"

abbrev pub prefix_idx_internal_from : Bytes
prefix_idx_internal_from = bytes "/index/internal/from/"

abbrev pub prefix_idx_internal_to : Bytes
prefix_idx_internal_to = bytes "/index/internal/to/"

abbrev pub prefix_idx_internal_block : Bytes
prefix_idx_internal_block = bytes "/index/internal/block/"

abbrev pub prefix_idx_erc20_token : Bytes
prefix_idx_erc20_token = bytes "/index/erc20/token/"

abbrev pub prefix_idx_erc20_from : Bytes
prefix_idx_erc20_from = bytes "/index/erc20/from/"

abbrev pub prefix_idx_erc20_to : Bytes
prefix_idx_erc20_to = bytes "/index/erc20/to/"

abbrev pub prefix_idx_erc721_token : Bytes
prefix_idx_erc721_token = bytes "/index/erc721/token/"

abbrev pub prefix_idx_erc721_from : Bytes
prefix_idx_erc721_from = bytes "/index/erc721/from/"

abbrev pub prefix_idx_erc721_to : Bytes
prefix_idx_erc721_to = bytes "/index/erc721/to/"

abbrev pub prefix_idx_erc721_token_owner : Bytes
prefix_idx_erc721_token_owner = bytes "/index/erc721/tokenowner/"

abbrev pub prefix_idx_erc721_owner : Bytes
prefix_idx_erc721_owner = bytes "/index/erc721/owner/"

abbrev pub prefix_idx_logs_addr : Bytes
prefix_idx_logs_addr = bytes "/index/logs/addr/"

abbrev pub prefix_idx_logs_topic0 : Bytes
prefix_idx_logs_topic0 = bytes "/index/logs/topic0/"

abbrev pub prefix_idx_logs_topic1 : Bytes
prefix_idx_logs_topic1 = bytes "/index/logs/topic1/"

abbrev pub prefix_idx_logs_topic2 : Bytes
prefix_idx_logs_topic2 = bytes "/index/logs/topic2/"

abbrev pub prefix_idx_logs_topic3 : Bytes
prefix_idx_logs_topic3 = bytes "/index/logs/topic3/"

abbrev pub prefix_idx_logs_block : Bytes
prefix_idx_logs_block = bytes "/index/logs/block/"

abbrev pub prefix_idx_verified_contracts : Bytes
prefix_idx_verified_contracts = bytes "/index/verification/verified/"

abbrev pub prefix_idx_fee_delegation_payer : Bytes
prefix_idx_fee_delegation_payer = bytes "/index/feedelegation/payer/"

abbrev pub prefix_idx_notification_status : Bytes
prefix_idx_notification_status = bytes "/index/notification/status/"

abbrev pub prefix_idx_notification_setting : Bytes
prefix_idx_notification_setting = bytes "/index/notification/setting/"

abbrev pub prefix_idx_notification_pending : Bytes
prefix_idx_notification_pending = bytes "/index/notification/pending/"

abbrev pub prefix_idx_token_standard : Bytes
prefix_idx_token_standard = bytes "/index/token/standard/"

abbrev pub prefix_idx_token_name : Bytes
prefix_idx_token_name = bytes "/index/token/name/"

abbrev pub prefix_idx_token_holder_by_token : Bytes
prefix_idx_token_holder_by_token = bytes "/index/token/holder/token/"

abbrev pub prefix_idx_token_holder_by_holder : Bytes
prefix_idx_token_holder_by_holder = bytes "/index/token/holder/holder/"

abbrev pub prefix_idx_set_code_target : Bytes
prefix_idx_set_code_target = bytes "/index/setcode/target/"

abbrev pub prefix_idx_set_code_authority : Bytes
prefix_idx_set_code_authority = bytes "/index/setcode/authority/"

abbrev pub prefix_idx_set_code_block : Bytes
prefix_idx_set_code_block = bytes "/index/setcode/block/"

abbrev pub prefix_idx_set_code_tx : Bytes
prefix_idx_set_code_tx = bytes "/index/setcode/tx/"

abbrev pub prefix_idx_module_account : Bytes
prefix_idx_module_account = bytes "/index/module/account/"

abbrev pub prefix_idx_module_block : Bytes
prefix_idx_module_block = bytes "/index/module/block/"

abbrev pub prefix_idx_user_op_sender : Bytes
prefix_idx_user_op_sender = bytes "/index/userop/sender/"

abbrev pub prefix_idx_user_op_bundler : Bytes
prefix_idx_user_op_bundler = bytes "/index/userop/bundler/"

abbrev pub prefix_idx_user_op_paymaster : Bytes
prefix_idx_user_op_paymaster = bytes "/index/userop/paymaster/"

abbrev pub prefix_idx_user_op_factory : Bytes
prefix_idx_user_op_factory = bytes "/index/userop/factory/"

abbrev pub prefix_idx_user_op_block : Bytes
prefix_idx_user_op_block = bytes "/index/userop/block/"

abbrev pub prefix_idx_user_op_tx : Bytes
prefix_idx_user_op_tx = bytes "/index/userop/tx/"
