-- ===== src/Watchlist/Bloom.antt =====
-- BloomFilter of pkg/watchlist/bloom.go. An address is its bytes. The lock makes each method one
-- step. An index is taken modulo the size, which is 64 for each word; the size that NewBloomFilter
-- computes in floating point is an argument, in words.
pub mod Bits
pub mod Members
pub mod Bytes
use Prim.Native.Nat.{bit_xor}
use indexer_go.Base.{
  ℕ, zero, suc, ◌+◌, ◌*◌, ◌/◌, ◌%◌, ◌^◌, Bool, true, false, List, [], ◌∷◌, ◌++◌, Option, none, some,
  ◌==◌, if◌then◌else◌, length, get_or, set, replicate, take, map,
}
use indexer_go.Base.Words.{bit, word_or}
use indexer_go.Text.{uint64_limit}
use indexer_go.Text
use indexer_go.Storage.Parse.{big_endian, from_big_endian}

pub record BloomFilter : Type 0 where
  pub bitset : List ℕ
  pub size : ℕ
  pub hash_count : ℕ
  pub count : ℕ

unfoldable pub new_bloom_filter : ℕ → ℕ → BloomFilter
new_bloom_filter words hash_count = record {
  bitset = replicate words 0;
  size = words * 64;
  hash_count = hash_count;
  count = 0;
}

-- FNV-1a, hash/fnv of the Go library.
unfoldable pub fnv_loop : ℕ → Text.Bytes → ℕ
fnv_loop h [] = h
fnv_loop h (c ∷ cs) = fnv_loop (bit_xor h c * 1099511628211 % uint64_limit) cs

unfoldable pub fnv_hash : Text.Bytes → ℕ
unfolding fnv_loop
fnv_hash bs = fnv_loop 14695981039346656037 bs

-- The index of the i-th hash of an address.
unfoldable pub hash : ℕ → Text.Bytes → ℕ → ℕ
unfolding fnv_hash
hash size addr i =
    let h1 = fnv_hash addr in
    let h2 = fnv_hash (addr ++ i % 256 ∷ []) in (h1 + i * h2 % uint64_limit) % uint64_limit % size

unfoldable pub set_bit : ℕ → List ℕ → List ℕ
unfolding word_or
set_bit idx bitset =
    set bitset (idx / 64) (word_or 64 (get_or bitset (idx / 64) 0) (2 ^ (idx % 64)))

unfoldable pub get_bit : ℕ → List ℕ → Bool
unfolding bit
get_bit idx bitset = bit (get_or bitset (idx / 64) 0) (idx % 64)

-- The bits of the hashes from the i-th on.
unfoldable pub set_hashes : ℕ → Text.Bytes → ℕ → ℕ → List ℕ → List ℕ
unfolding hash set_bit
set_hashes size addr zero i bitset = bitset
set_hashes size addr (suc left) i bitset =
    set_hashes size addr left (i + 1) (set_bit (hash size addr i) bitset)

unfoldable pub test_hashes : ℕ → Text.Bytes → ℕ → ℕ → List ℕ → Bool
unfolding hash get_bit
test_hashes size addr zero i bitset = true
test_hashes size addr (suc left) i bitset = elim (get_bit (hash size addr i) bitset) [
  | false ↦ false
  | true ↦ test_hashes size addr left (i + 1) bitset
]

unfoldable pub add : Text.Bytes → BloomFilter → BloomFilter
unfolding set_hashes
add addr bf = record {
  bitset = set_hashes bf.size addr bf.hash_count 0 bf.bitset;
  size = bf.size;
  hash_count = bf.hash_count;
  count = (bf.count + 1) % uint64_limit;
}

unfoldable pub add_batch : List Text.Bytes → BloomFilter → BloomFilter
unfolding add
add_batch [] bf = bf
add_batch (addr ∷ addrs) bf = add_batch addrs (add addr bf)

unfoldable pub might_contain : BloomFilter → Text.Bytes → Bool
unfolding test_hashes
might_contain bf addr = test_hashes bf.size addr bf.hash_count 0 bf.bitset

unfoldable pub might_contain_any : BloomFilter → List Text.Bytes → Bool
unfolding might_contain
might_contain_any bf [] = false
might_contain_any bf (addr ∷ addrs) = elim (might_contain bf addr) [
  | true ↦ true
  | false ↦ might_contain_any bf addrs
]

unfoldable pub clear : BloomFilter → BloomFilter
clear bf = record {
  bitset = map (λ w. 0) bf.bitset;
  size = bf.size;
  hash_count = bf.hash_count;
  count = 0;
}

-- The words of two bitsets of one length, joined.
unfoldable pub or_words : List ℕ → List ℕ → List ℕ
unfolding word_or
or_words [] others = []
or_words (w ∷ ws) [] = w ∷ ws
or_words (w ∷ ws) (v ∷ vs) = word_or 64 w v ∷ or_words ws vs

-- Merge; `none` is ErrBloomFilterSizeMismatch.
unfoldable pub merge : BloomFilter → BloomFilter → Option BloomFilter
unfolding or_words
merge bf other =
    if bf.size == other.size
    then some (record {
      bitset = or_words bf.bitset other.bitset;
      size = bf.size;
      hash_count = bf.hash_count;
      count = bf.count;
    })
    else none

unfoldable pub word_bytes : List ℕ → Text.Bytes
unfolding big_endian
word_bytes [] = []
word_bytes (w ∷ ws) = big_endian 8 w ++ word_bytes ws

unfoldable pub to_bytes : BloomFilter → Text.Bytes
unfolding word_bytes
to_bytes bf = word_bytes bf.bitset

-- Whole words of eight bytes; what is left over is not read.
unfoldable pub read_words : Text.Bytes → List ℕ
unfolding from_big_endian
read_words (a ∷ b ∷ c ∷ d ∷ e ∷ f ∷ g ∷ h ∷ rest) =
    from_big_endian 0 (a ∷ b ∷ c ∷ d ∷ e ∷ f ∷ g ∷ h ∷ []) ∷ read_words rest
read_words _ = []

-- NewBloomFilterFromBytes, with the filter that stands for no bytes.
unfoldable pub from_bytes : BloomFilter → Text.Bytes → ℕ → BloomFilter
unfolding read_words
from_bytes default [] hash_count = default
from_bytes default (c ∷ cs) hash_count = record {
  bitset = read_words (c ∷ cs);
  size = length (c ∷ cs) * 8;
  hash_count = hash_count;
  count = 0;
}
