-- ===== src/Storage/Parse.antt =====
-- Reading keys and numbers back: ParseBlockKey, ParseTransactionKey, ParseChainKey, EncodeUint64
-- and DecodeUint64 of pkg/storage/schema.go. An error is `none`.
pub mod Roundtrip
use indexer_go.Base.{
  ℕ, zero, suc, ◌+◌, ◌*◌, ◌/◌, ◌%◌, Bool, List, [], ◌∷◌, ◌++◌, Option, none, some, ◌>>=◌, ◌==◌,
  if◌then◌else◌, length,
}
use indexer_go.Text.{Bytes, slash, has_prefix, trim_prefix, split, parse_uint}
use indexer_go.Storage.Prefixes.{
  prefix_blocks, prefix_txs, prefix_chain, prefix_meta, prefix_data, prefix_index,
}

-- The height of what follows the prefix; a missing height is an error.
abbrev pub parse_height : Bytes → Option ℕ
parse_height [] = none
parse_height (c ∷ cs) = parse_uint (c ∷ cs)

unfoldable pub parse_block_key : Bytes → Option ℕ
unfolding trim_prefix
parse_block_key key =
    if has_prefix key prefix_blocks then parse_height (trim_prefix key prefix_blocks) else none

-- The two numbers of two segments; any other number of segments is an error.
abbrev pub parse_segments : List Bytes → Option (ℕ × ℕ)
parse_segments (h ∷ i ∷ []) =
    parse_uint h >>= λ height. parse_uint i >>= λ tx_index. some (height, tx_index)
parse_segments _ = none

unfoldable pub parse_transaction_key : Bytes → Option (ℕ × ℕ)
unfolding trim_prefix
parse_transaction_key key =
    if has_prefix key prefix_txs then parse_segments (split (trim_prefix key prefix_txs)) else none

-- What stands before the first slash, and the rest from it on.
unfoldable pub cut : Bytes → Option (Bytes × Bytes)
cut [] = none
cut (c ∷ cs) =
    let rest = cut cs in
    if c == slash then some ([], c ∷ cs) else (rest >>= λ (x, y). some (c ∷ x, y))

unfoldable pub parse_chain_key : Bytes → Option (Bytes × Bytes)
unfolding cut trim_prefix
parse_chain_key key =
    if has_prefix key prefix_chain then cut (trim_prefix key prefix_chain) else none

unfoldable pub is_metadata_key : Bytes → Bool
is_metadata_key key = has_prefix key prefix_meta

unfoldable pub is_data_key : Bytes → Bool
is_data_key key = has_prefix key prefix_data

unfoldable pub is_index_key : Bytes → Bool
is_index_key key = has_prefix key prefix_index

unfoldable pub is_chain_key : Bytes → Bool
is_chain_key key = has_prefix key prefix_chain

-- The last `k` bytes of a number, the most significant first.
unfoldable pub big_endian : ℕ → ℕ → Bytes
big_endian zero n = []
big_endian (suc k) n = big_endian k (n / 256) ++ n % 256 ∷ []

unfoldable pub from_big_endian : ℕ → Bytes → ℕ
from_big_endian n [] = n
from_big_endian n (c ∷ cs) = from_big_endian (n * 256 + c) cs

unfoldable pub encode_uint64 : ℕ → Bytes
unfolding big_endian
encode_uint64 n = big_endian 8 n

unfoldable pub decode_uint64 : Bytes → Option ℕ
unfolding from_big_endian
decode_uint64 bs = if length bs == 8 then some (from_big_endian 0 bs) else none
