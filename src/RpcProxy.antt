-- ===== src/RpcProxy.antt =====
-- The RPC proxy, pkg/rpcproxy.
pub mod Types
pub mod Circuit
pub mod Queue
pub mod Multi
pub mod Cache
pub mod Worker
