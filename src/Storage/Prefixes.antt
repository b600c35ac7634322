-- ===== src/Storage/Prefixes.antt =====
-- The key prefixes and the metadata keys of pkg/storage/schema.go.
mod Data
mod Index
pub use Data.*
pub use Index.*
use indexer_go.Text.{Bytes, bytes}

abbrev pub prefix_meta : Bytes
prefix_meta = bytes "/meta/"

abbrev pub key_latest_height : Bytes
key_latest_height = bytes "/meta/lh"

abbrev pub key_block_count : Bytes
key_block_count = bytes "/meta/bc"

abbrev pub key_transaction_count : Bytes
key_transaction_count = bytes "/meta/tc"

abbrev pub key_latest_epoch : Bytes
key_latest_epoch = bytes "/meta/wbft/latest_epoch"

abbrev pub prefix_chain : Bytes
prefix_chain = bytes "/chain/"
