-- ===== src/Storage.antt =====
-- Keys of the store, pkg/storage/schema.go.
pub mod Hex
pub mod Prefixes
pub mod Blocks
pub mod Parse
pub mod Order
pub mod Isolation
pub mod Store
pub mod AddressIndex
pub mod System
pub mod Wbft
pub mod Contracts
pub mod Logs
pub mod Chains
pub mod Services
pub mod Holders
pub mod Accounts
