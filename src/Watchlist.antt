-- ===== src/Watchlist.antt =====
-- Watched addresses, pkg/watchlist.
pub mod Types
pub mod Bloom
pub mod Matcher
