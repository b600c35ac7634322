-- ===== src/Tests/Storage.antt =====
-- Inputs for the theorems on the keys of pkg/storage/schema.go and the index of addresses.
use indexer_go.Base.{
  ◌≡◌, ◌≢◌, ◌↔◌, refl, sym, inl, inr, Bool, true, false, List, [], ◌∷◌, some, arith, Bool-cases,
  length, All,
}
use indexer_go.Base.Dict.{Eq, lookup, insert, lookup-insert}
use indexer_go.Text.{Bytes, bytes, slash, less, has_prefix, padded}
use indexer_go.Text.Equality.{bytes_beq, bytes_beq_refl, bytes_beq_sound, bytes_eq}
use indexer_go.Storage.Hex.{Hex}
use indexer_go.Storage.Store.{Store}
use indexer_go.Storage.Blocks.{
  block_key, transaction_key, address_transaction_key, address_transaction_key_prefix,
  block_key_range,
}
use indexer_go.Storage.Logs.{log_key}
use indexer_go.Storage.Chains.{chain_block_key}
use indexer_go.Storage.Parse.{parse_transaction_key, parse_chain_key, encode_uint64, decode_uint64}
use indexer_go.Storage.Parse.Roundtrip.{
  parse_transaction_key-transaction_key, decode_uint64-encode_uint64,
  parse_chain_key-chain_block_key,
}
use indexer_go.Storage.Order.{less-log_key, block_key_range-inverted, LogBefore}
use indexer_go.Storage.Isolation.{address_transaction_key-prefix}
use indexer_go.Storage.AddressIndex.{
  PebbleStorage, new_pebble_storage, next_seq, add_transaction_to_address_index, add_all,
}
use indexer_go.Storage.AddressIndex.Kept.{Fits, added-kept, new_pebble_storage-overwrites}

parse_transaction_key-transaction_key_example :
    parse_transaction_key (transaction_key 1205 7) ≡ some (1205, 7)
parse_transaction_key-transaction_key_example =
    parse_transaction_key-transaction_key 1205 7 (omega arith) (omega arith)

decode_uint64-encode_uint64_example : decode_uint64 (encode_uint64 70000) ≡ some 70000
decode_uint64-encode_uint64_example = decode_uint64-encode_uint64 70000 (omega arith)

parse_chain_key-chain_block_key_example :
    parse_chain_key (chain_block_key (bytes "one") 12) ≡ some (bytes "one", block_key 12)
parse_chain_key-chain_block_key_example =
    parse_chain_key-chain_block_key (bytes "one") 12 (omega arith, (omega arith, (omega arith, tt)))

less-log_key_example : less (log_key 9 0 12) (log_key 10 3 1) ≡ true
unfolding LogBefore
less-log_key_example = less-log_key 9 0 12 10 3 1 before (omega arith) (omega arith) (omega arith)
  where
    before : LogBefore (9, 0, 12) (10, 3, 1)
    before = inl (omega arith)

block_key_range-inverted_example : less (block_key_range 3 19).1 (block_key_range 3 19).0 ≡ true
block_key_range-inverted_example =
    block_key_range-inverted 2 3 19 (omega arith) (omega arith) (omega arith) refl refl

-- Addresses of one letter.
abbrev bool_text : Bool → Bytes
bool_text false = b'x' ∷ []
bool_text true = b'y' ∷ []

instance abbrev bool_hex : Hex Bool
bool_hex = record {
  text = bool_text;
  width = 1;
  length_text = one;
  text_injective = injective;
  text_IsNoSlash = plain;
}
  where
    one : (a : Bool) → length (bool_text a) ≡ 1
    one false = refl
    one true = refl

    injective : (a b : Bool) → bool_text a ≡ bool_text b → a ≡ b
    injective false false e = refl
    injective false true e = absurd (ground arith)
    injective true false e = absurd (ground arith)
    injective true true e = refl

    plain : (a : Bool) → All (λ c. c ≢ slash) (bool_text a)
    plain false = (omega arith, tt)
    plain true = (omega arith, tt)

abbrev bool_beq : Bool → Bool → Bool
bool_beq false false = true
bool_beq true true = true
bool_beq _ _ = false

instance abbrev bool_eq : Eq Bool
bool_eq = record { beq = bool_beq; beq_iff = iff }
  where
    iff : (a b : Bool) → (bool_beq a b ≡ true) ↔ (a ≡ b)
    iff false false = ground arith
    iff false true = ground arith
    iff true false = ground arith
    iff true true = ground arith

abbrev Table : Type 0
Table = List (Bytes × Bytes)

table_self : (s t : Table) (k v : Bytes) → some (insert k v s) ≡ some t → lookup k t ≡ some v
table_self s t k v e =
    let whole : insert k v s ≡ t = ground arith in
    let value = lookup-insert k k v s in let found = rw (bytes_beq_refl k, whole) at value in found

table_ne :
    (s t : Table) (k j v : Bytes) → some (insert k v s) ≡ some t → j ≢ k → lookup j t ≡ lookup j s
table_ne s t k j v e d =
    let whole : insert k v s ≡ t = ground arith in
    let value = rw whole at (lookup-insert k j v s) in
    elim (Bool-cases (bytes_beq k j)) [
      | inl same ↦ absurd (d (sym (bytes_beq_sound k j same)))
      | inr other ↦ rw other at value
    ]

instance abbrev table : Store Table
table = record {
  read = λ s k. lookup k s;
  write = λ s k v. some (insert k v s);
  read-write_self = table_self;
  read-write_ne = table_ne;
}

address_transaction_key-prefix_example : Path Bool true true
unfolding has_prefix address_transaction_key_prefix address_transaction_key
address_transaction_key-prefix_example = address_transaction_key-prefix true true 5 refl

abbrev opened : PebbleStorage Table Bool
opened = record { db = []; closed = false; read_only = false; addr_seq = (true, 4) ∷ [] }

opened-Fits : Fits opened 3
unfolding next_seq lookup
opened-Fits false = omega arith
opened-Fits true = omega arith

added-kept_example :
    lookup
      (address_transaction_key true (next_seq opened true))
      (add_all opened ((true, bytes "h") ∷ (false, bytes "i") ∷ (true, bytes "j") ∷ [])).db
    ≡ some (bytes "h")
unfolding add_transaction_to_address_index
added-kept_example =
    added-kept opened true (bytes "h") ((false, bytes "i") ∷ (true, bytes "j") ∷ []) opened-Fits
      refl

abbrev kept : Table
kept = (bytes "/index/addr/y/00000000000000000000", bytes "h") ∷ []

new_pebble_storage-overwrites_example :
    (lookup
        (address_transaction_key true 0)
        (add_transaction_to_address_index (new_pebble_storage kept false) true (bytes "i")).0.db
      ≡ some (bytes "i"))
    × (some (bytes "i") ≢ lookup (address_transaction_key true 0) kept)
unfolding add_transaction_to_address_index new_pebble_storage lookup padded
new_pebble_storage-overwrites_example =
    new_pebble_storage-overwrites kept true (bytes "h") (bytes "i") refl
      (λ e. absurd (ground arith)) refl
