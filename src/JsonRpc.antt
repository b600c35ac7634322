-- ===== src/JsonRpc.antt =====
-- The filters and the pending transactions of the JSON-RPC server, pkg/api/jsonrpc.
pub mod Filters
pub mod Pending
