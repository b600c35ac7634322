-- ===== src/Tests.antt =====
-- The theorems at concrete inputs that meet their hypotheses, and runs of the modelled code.
mod Circuit
mod Queue
mod Cache
mod Storage
mod Fetch
mod Worker
mod Watchlist
mod JsonRpc
