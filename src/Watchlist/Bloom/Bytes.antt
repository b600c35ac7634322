-- ===== src/Watchlist/Bloom/Bytes.antt =====
-- A filter that was written is read back.
use indexer_go.Base.{
  ℕ, ◌*◌, ◌<◌, ◌≡◌, refl, ap, ◌∙◌, List, [], ◌∷◌, ◌++◌, arith, length, length-append, All,
}
use indexer_go.Text.{uint64_limit}
use indexer_go.Text
use indexer_go.Storage.Parse.{big_endian, from_big_endian}
use indexer_go.Storage.Parse.Roundtrip.{length-big_endian, from_big_endian-big_endian}
use indexer_go.Watchlist.Bloom.Members.{IsValid}
use indexer_go.Watchlist.Bloom.{BloomFilter, word_bytes, to_bytes, read_words, from_bytes}

-- Eight bytes at the front are one word.
read_words-append :
    (bs rest : Text.Bytes)
    → length bs ≡ 8
    → read_words (bs ++ rest) ≡ from_big_endian 0 bs ∷ read_words rest
unfolding read_words
read_words-append (a ∷ b ∷ c ∷ d ∷ e ∷ f ∷ g ∷ h ∷ []) rest l = refl
read_words-append [] rest l = absurd (omega arith)
read_words-append (a ∷ []) rest l = absurd (omega arith)
read_words-append (a ∷ b ∷ []) rest l = absurd (omega arith)
read_words-append (a ∷ b ∷ c ∷ []) rest l = absurd (omega arith)
read_words-append (a ∷ b ∷ c ∷ d ∷ []) rest l = absurd (omega arith)
read_words-append (a ∷ b ∷ c ∷ d ∷ e ∷ []) rest l = absurd (omega arith)
read_words-append (a ∷ b ∷ c ∷ d ∷ e ∷ f ∷ []) rest l = absurd (omega arith)
read_words-append (a ∷ b ∷ c ∷ d ∷ e ∷ f ∷ g ∷ []) rest l = absurd (omega arith)
read_words-append (a ∷ b ∷ c ∷ d ∷ e ∷ f ∷ g ∷ h ∷ i ∷ bs) rest l = absurd (omega arith)

read_words-nil : read_words [] ≡ []
unfolding read_words
read_words-nil = refl

read_words-word_bytes :
    (ws : List ℕ) → All (λ w. w < uint64_limit) ws → read_words (word_bytes ws) ≡ ws
unfolding word_bytes
read_words-word_bytes [] h = read_words-nil
read_words-word_bytes (w ∷ ws) h =
    read_words-append (big_endian 8 w) (word_bytes ws) (length-big_endian 8 w)
    ∙ (rw (from_big_endian-big_endian 8 w (omega (arith, h.0)))
        (ap (λ vs. w ∷ vs) (read_words-word_bytes ws h.1)))

length-word_bytes : (ws : List ℕ) → length (word_bytes ws) ≡ length ws * 8
unfolding word_bytes
length-word_bytes [] = refl
length-word_bytes (w ∷ ws) = omega (
  arith,
  length-append (big_endian 8 w) (word_bytes ws),
  length-big_endian 8 w,
  length-word_bytes ws,
)

from_bytes_nonempty :
    (default : BloomFilter) (bs : Text.Bytes) (hash_count : ℕ)
    → 0 < length bs
    → from_bytes default bs hash_count
      ≡ record { bitset = read_words bs; size = length bs * 8; hash_count = hash_count; count = 0 }
unfolding from_bytes
from_bytes_nonempty default [] hash_count h = absurd (omega arith)
from_bytes_nonempty default (c ∷ cs) hash_count h = refl

-- A valid filter of 64-bit words, written by Bytes and read by NewBloomFilterFromBytes with its
-- number of hashes, is the filter again, but for the count, which is 0.
pub from_bytes-to_bytes :
    (default bf : BloomFilter)
    → IsValid bf
    → All (λ w. w < uint64_limit) bf.bitset
    → from_bytes default (to_bytes bf) bf.hash_count
      ≡ record { bitset = bf.bitset; size = bf.size; hash_count = bf.hash_count; count = 0 }
unfolding to_bytes
from_bytes-to_bytes default bf v h =
    let long = length-word_bytes bf.bitset in
    let size : length (word_bytes bf.bitset) * 8 ≡ bf.size = omega (arith, long, v.0) in
    from_bytes_nonempty default (word_bytes bf.bitset) bf.hash_count (omega (arith, long, v.0, v.1))
    ∙ (rw (read_words-word_bytes bf.bitset h, size) refl)
