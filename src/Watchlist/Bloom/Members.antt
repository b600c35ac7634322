-- ===== src/Watchlist/Bloom/Members.antt =====
-- The filter has no false negatives.
use indexer_go.Base.{
  ℕ, zero, suc, ◌+◌, ◌*◌, ◌<◌, ◌≡◌, ◌≢◌, refl, ap, ◌∙◌, true, List, [], ◌∷◌, none, some, arith,
  ◌==◌, Bool-cases, inl, inr, length, replicate, All, ◌⊎◌,
}
use indexer_go.Text.{uint64_limit}
use indexer_go.Text
use indexer_go.Watchlist.Bloom.{
  BloomFilter, new_bloom_filter, hash, set_bit, get_bit, set_hashes, test_hashes, add, add_batch,
  might_contain, merge, or_words,
}
use indexer_go.Watchlist.Bloom.Bits.{
  length-set_bit, get_bit-set_bit, length-or_words, get_bit-or_words,
}

-- The size is 64 for each word, and not 0, so that no index is out of range.
abbrev pub IsValid : BloomFilter → Type 0
IsValid bf = (bf.size ≡ length bf.bitset * 64) × (0 < bf.size)

hash-lt : (size : ℕ) (addr : Text.Bytes) (i : ℕ) → 0 < size → hash size addr i < size
unfolding hash
hash-lt size addr i h = grind arith

module _ (size : ℕ) (pos : 0 < size) where
  set_hashes-keeps :
      (addr : Text.Bytes) (left i : ℕ) (bitset : List ℕ)
      → size ≡ length bitset * 64
      → (length (set_hashes size addr left i bitset) ≡ length bitset)
        × ((j : ℕ)
            → get_bit j bitset ≡ true
            → get_bit j (set_hashes size addr left i bitset) ≡ true)
  unfolding set_hashes
  set_hashes-keeps addr zero i bitset e = (refl, λ j h. h)
  set_hashes-keeps addr (suc left) i bitset e =
      let idx = hash size addr i in
      let next = set_bit idx bitset in
      let inside = hash-lt size addr i pos in
      let same = length-set_bit idx bitset in
      let ih = set_hashes-keeps addr left (i + 1) next (omega (arith, e, same)) in
      (
        ih.0 ∙ same,
        λ j h. ih.1 j (ground (arith, get_bit-set_bit idx j bitset (omega (arith, inside, e)), h)),
      )

  -- Every index of an address is set after it was added.
  test_hashes-set_hashes :
      (addr : Text.Bytes) (left i : ℕ) (bitset : List ℕ)
      → size ≡ length bitset * 64
      → test_hashes size addr left i (set_hashes size addr left i bitset) ≡ true
  unfolding set_hashes test_hashes
  test_hashes-set_hashes addr zero i bitset e = refl
  test_hashes-set_hashes addr (suc left) i bitset e =
      let idx = hash size addr i in
      let next = set_bit idx bitset in
      let inside = hash-lt size addr i pos in
      let room : size ≡ length next * 64 = omega (arith, e, length-set_bit idx bitset) in
      let written : get_bit idx next ≡ true =
        ground (arith, get_bit-set_bit idx idx bitset (omega (arith, inside, e))) in
      let kept = (set_hashes-keeps addr left (i + 1) next room).1 idx written in
      rw (kept, test_hashes) (test_hashes-set_hashes addr left (i + 1) next room)

-- More bits, more members.
test_hashes_mono :
    (size : ℕ) (addr : Text.Bytes) (left i : ℕ) (few many : List ℕ)
    → ((j : ℕ) → get_bit j few ≡ true → get_bit j many ≡ true)
    → test_hashes size addr left i few ≡ true
    → test_hashes size addr left i many ≡ true
unfolding test_hashes
test_hashes_mono size addr zero i few many h t = refl
test_hashes_mono size addr (suc left) i few many h t =
    elim (Bool-cases (get_bit (hash size addr i) few)) [
      | inl set_there ↦
          let rest : test_hashes size addr left (i + 1) few ≡ true = ground (arith, set_there) in
          rw (h (hash size addr i) set_there, test_hashes)
            (test_hashes_mono size addr left (i + 1) few many h rest)
      | inr clear_there ↦ absurd (ground (arith, clear_there))
    ]

length-replicate : (n k : ℕ) → length (replicate n k) ≡ n
length-replicate zero k = refl
length-replicate (suc n) k = ap suc (length-replicate n k)

pub new_bloom_filter-IsValid :
    (words hash_count : ℕ) → 0 < words → IsValid (new_bloom_filter words hash_count)
unfolding new_bloom_filter
new_bloom_filter-IsValid words hash_count h = (omega (arith, length-replicate words 0), omega arith)

module _ (addr : Text.Bytes) (bf : BloomFilter) (v : IsValid bf) where
  pub add-IsValid : IsValid (add addr bf)
  unfolding add
  add-IsValid =
      let kept = (set_hashes-keeps bf.size v.1 addr bf.hash_count 0 bf.bitset v.0).0 in
      (omega (arith, v.0, kept), v.1)

  pub might_contain-add_self : might_contain (add addr bf) addr ≡ true
  unfolding add might_contain
  might_contain-add_self = test_hashes-set_hashes bf.size v.1 addr bf.hash_count 0 bf.bitset v.0

  pub might_contain-add :
      (x : Text.Bytes) → might_contain bf x ≡ true → might_contain (add addr bf) x ≡ true
  unfolding add might_contain
  might_contain-add x h =
      test_hashes_mono bf.size x bf.hash_count 0 bf.bitset
        (set_hashes bf.size addr bf.hash_count 0 bf.bitset)
        (set_hashes-keeps bf.size v.1 addr bf.hash_count 0 bf.bitset v.0).1 h

-- No false negatives: after AddBatch on a valid filter the filter is valid, MightContain holds for
-- every address of the batch, and for every address for which it held before.
pub might_contain-add_batch :
    (addrs : List Text.Bytes) (bf : BloomFilter)
    → IsValid bf
    → IsValid (add_batch addrs bf)
      × All (λ x. might_contain (add_batch addrs bf) x ≡ true) addrs
      × ((x : Text.Bytes) → might_contain bf x ≡ true → might_contain (add_batch addrs bf) x ≡ true)
unfolding add_batch
might_contain-add_batch [] bf v = (v, tt, λ x h. h)
might_contain-add_batch (addr ∷ addrs) bf v =
    let ih = might_contain-add_batch addrs (add addr bf) (add-IsValid addr bf v) in
    (
      ih.0,
      (ih.2 addr (might_contain-add_self addr bf v), ih.1),
      λ x h. ih.2 x (might_contain-add addr bf v x h),
    )

-- Merging two valid filters with one size and one number of hashes succeeds, and MightContain of
-- the result holds for every address for which it held in either; with two sizes it is refused.
pub merge_lem :
    (bf other : BloomFilter)
    → IsValid bf
    → IsValid other
    → bf.hash_count ≡ other.hash_count
    → (bf.size ≢ other.size → merge bf other ≡ none)
      × (bf.size ≡ other.size
          → (m : BloomFilter) × (merge bf other ≡ some m)
            × IsValid m
            × ((x : Text.Bytes)
                → (might_contain bf x ≡ true) ⊎ (might_contain other x ≡ true)
                → might_contain m x ≡ true))
unfolding merge might_contain
merge_lem bf other v w k = (
  λ ne. ground (arith, ne),
  λ e.
      let joined = or_words bf.bitset other.bitset in
      let long = length-or_words bf.bitset other.bitset in
      let even : length bf.bitset ≡ length other.bitset = omega (arith, v.0, w.0, e) in
      let read = λ (j : ℕ). get_bit-or_words bf.bitset other.bitset j even in
      let result : BloomFilter = record {
        bitset = joined;
        size = bf.size;
        hash_count = bf.hash_count;
        count = bf.count;
      } in
      let same : (bf.size == other.size) ≡ true = ground (arith, e) in
      (
        result,
        rw (same, merge) refl,
        (omega (arith, v.0, long), v.1),
        λ x s. elim s [
          | inl left ↦
              test_hashes_mono bf.size x bf.hash_count 0 bf.bitset joined
                (λ j h. ground (arith, read j, h)) left
          | inr right ↦
              rw (e, k)
                (test_hashes_mono other.size x other.hash_count 0 other.bitset joined
                  (λ j h. ground (arith, read j, h)) right)
        ],
      ),
)
