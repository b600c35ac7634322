-- ===== src/Storage/Parse/Roundtrip.antt =====
-- Keys and numbers are read back as they were written.
use mathlib.Core.List.{append_assoc}
use native.Mathlib.Nat.{pow-suc}
use Prim.Native.Nat.{◌^◌}
use indexer_go.Base.{
  ℕ, zero, suc, ◌+◌, ◌*◌, ◌/◌, ◌%◌, ◌<◌, ◌≡◌, refl, ap, ◌∙◌, inl, inr, [], ◌∷◌, ◌++◌, Option, none,
  some, arith, ◌==◌, if◌then◌else◌, Option-cases, Bool-cases, length, length-append, All,
}
use indexer_go.Text.{
  Bytes, bytes, slash, decimal, uint64_limit, parse_uint, has_prefix, trim_prefix, split,
}
use indexer_go.Text.Decimal.{parse_uint-decimal, decimal_nonempty}
use indexer_go.Text.Split.{
  has_prefix-append, trim_prefix-append, append-trim_prefix, split_whole, split-append,
  decimal-IsNoSlash, IsNoSlash,
}
use indexer_go.Storage.Prefixes.{prefix_blocks, prefix_txs, prefix_chain}
use indexer_go.Storage.Blocks.{block_key, transaction_key}
use indexer_go.Storage.Chains.{chain_block_key}
use indexer_go.Storage.Parse.{
  parse_block_key, parse_height, parse_segments, parse_transaction_key, cut, parse_chain_key,
  big_endian, from_big_endian, encode_uint64, decode_uint64,
}

parse_height_nonempty : (s : Bytes) → 0 < length s → parse_height s ≡ parse_uint s
parse_height_nonempty [] h = absurd (omega arith)
parse_height_nonempty (c ∷ s) h = refl

-- A parser that takes a prefix off sees what follows it.
strip-append {ℓ} :
    {A : Type ℓ} (p s : Bytes) (f : Bytes → Option A)
    → (if has_prefix (p ++ s) p then f (trim_prefix (p ++ s) p) else none) ≡ f s
strip-append p s f = rw (has_prefix-append p s, trim_prefix-append p s) refl

-- The height of a block key is read back, for every 64-bit height.
pub parse_block_key-block_key :
    (height : ℕ) → height < uint64_limit → parse_block_key (block_key height) ≡ some height
unfolding parse_block_key block_key
parse_block_key-block_key height h =
    strip-append prefix_blocks (decimal height) parse_height
    ∙ parse_height_nonempty (decimal height) (decimal_nonempty height)
    ∙ parse_uint-decimal height h

parse_segments-split :
    (height tx_index : ℕ)
    → height < uint64_limit
    → tx_index < uint64_limit
    → parse_segments (split (decimal height ++ slash ∷ decimal tx_index)) ≡ some (height, tx_index)
parse_segments-split height tx_index h i =
    rw
      (
        split-append (decimal height) (decimal tx_index) (decimal-IsNoSlash height),
        split_whole (decimal tx_index) (decimal-IsNoSlash tx_index),
        parse_uint-decimal height h,
        parse_uint-decimal tx_index i,
      )
      refl

-- The height and the index of a transaction key are read back, for all 64-bit numbers.
pub parse_transaction_key-transaction_key :
    (height tx_index : ℕ)
    → height < uint64_limit
    → tx_index < uint64_limit
    → parse_transaction_key (transaction_key height tx_index) ≡ some (height, tx_index)
unfolding parse_transaction_key transaction_key
parse_transaction_key-transaction_key height tx_index h i =
    strip-append prefix_txs (decimal height ++ slash ∷ decimal tx_index)
      (λ s. parse_segments (split s))
    ∙ parse_segments-split height tx_index h i

cut-append : (s t : Bytes) → All IsNoSlash s → cut (s ++ slash ∷ t) ≡ some (s, slash ∷ t)
unfolding cut
cut-append [] t h = refl
cut-append (c ∷ s) t h = ground (arith, cut-append s t h.1)

append-cut : (s x y : Bytes) → cut s ≡ some (x, y) → (x ++ y ≡ s) × All IsNoSlash x
unfolding cut
append-cut [] x y e = absurd (ground arith)
append-cut (c ∷ s) x y e = elim (Option-cases (cut s)) [
  | inl stuck ↦ ground arith
  | inr (r, found) ↦ let ih = append-cut s r.0 r.1 found in ground arith
]

from_big_endian-append :
    (n : ℕ) (s t : Bytes) → from_big_endian n (s ++ t) ≡ from_big_endian (from_big_endian n s) t
unfolding from_big_endian
from_big_endian-append n [] t = refl
from_big_endian-append n (c ∷ s) t = from_big_endian-append (n * 256 + c) s t

pub length-big_endian : (k n : ℕ) → length (big_endian k n) ≡ k
unfolding big_endian
length-big_endian zero n = refl
length-big_endian (suc k) n =
    omega
      (arith, length-append (big_endian k (n / 256)) (n % 256 ∷ []), length-big_endian k (n / 256))

pub from_big_endian-big_endian : (k n : ℕ) → n < 256 ^ k → from_big_endian 0 (big_endian k n) ≡ n
unfolding big_endian from_big_endian
from_big_endian-big_endian zero n h = omega arith
from_big_endian-big_endian (suc k) n h =
    rw
      (
        from_big_endian-append 0 (big_endian k (n / 256)) (n % 256 ∷ []),
        from_big_endian-big_endian k (n / 256) (omega (arith, h, pow-suc 256 k)),
      )
      (omega arith)

guarded-big_endian :
    (k n : ℕ)
    → n < 256 ^ k
    → (if length (big_endian k n) == k then some (from_big_endian 0 (big_endian k n)) else none)
      ≡ some n
guarded-big_endian k n h =
    rw (length-big_endian k n, from_big_endian-big_endian k n h) (ground arith)

-- The value of the latest height and of the counters is read back, for every 64-bit number.
pub decode_uint64-encode_uint64 :
    (n : ℕ) → n < uint64_limit → decode_uint64 (encode_uint64 n) ≡ some n
unfolding decode_uint64 encode_uint64
decode_uint64-encode_uint64 n h = guarded-big_endian 8 n (omega arith)

-- The chain of a chain's key is read back, for an identifier without a slash, with the rest of
-- the key from its slash on.
pub parse_chain_key-append :
    (chain_id s : Bytes)
    → All IsNoSlash chain_id
    → parse_chain_key (prefix_chain ++ chain_id ++ slash ∷ s) ≡ some (chain_id, slash ∷ s)
unfolding parse_chain_key
parse_chain_key-append chain_id s h =
    strip-append prefix_chain (chain_id ++ slash ∷ s) cut ∙ cut-append chain_id s h

block_part :
    (chain_id s : Bytes)
    → All IsNoSlash chain_id
    → parse_chain_key (prefix_chain ++ chain_id ++ prefix_blocks ++ s)
      ≡ some (chain_id, prefix_blocks ++ s)
block_part chain_id s h =
    ap parse_chain_key (append_assoc (prefix_chain ++ chain_id) prefix_blocks s)
    ∙ parse_chain_key-append chain_id (bytes "data/blocks/" ++ s) h

-- The block key of a chain, with an identifier without a slash, is read back as the identifier
-- and the block key of a single chain.
pub parse_chain_key-chain_block_key :
    (chain_id : Bytes) (height : ℕ)
    → All IsNoSlash chain_id
    → parse_chain_key (chain_block_key chain_id height) ≡ some (chain_id, block_key height)
unfolding chain_block_key block_key
parse_chain_key-chain_block_key chain_id height h = block_part chain_id (decimal height) h

-- What ParseChainKey returns makes up the key, and the identifier has no slash.
pub append-parse_chain_key :
    (key chain_id rest : Bytes)
    → parse_chain_key key ≡ some (chain_id, rest)
    → (prefix_chain ++ chain_id ++ rest ≡ key) × All IsNoSlash chain_id
unfolding parse_chain_key
append-parse_chain_key key chain_id rest e = elim (Bool-cases (has_prefix key prefix_chain)) [
  | inl start ↦
      let found : cut (trim_prefix key prefix_chain) ≡ some (chain_id, rest) = ground arith in
      let whole = append-cut (trim_prefix key prefix_chain) chain_id rest found in
      (rw whole.0 (append-trim_prefix key prefix_chain start), whole.1)
  | inr other ↦ absurd (ground arith)
]
