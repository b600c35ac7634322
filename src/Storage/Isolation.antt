-- ===== src/Storage/Isolation.antt =====
-- The keys of one address or chain are not among those of another.
use mathlib.Core.List.{append_assoc}
use indexer_go.Base.{ℕ, ◌<◌, ◌≡◌, sym, ◌∙◌, true, [], ◌∷◌, ◌++◌, arith}
use indexer_go.Text.{slash, padded, uint64_limit, has_prefix, trim_prefix}
use indexer_go.Text.Split.{append-trim_prefix}
use indexer_go.Text.Concat.{append_cancel, append_injective}
use indexer_go.Text.Padded.{padded_injective}
use indexer_go.Storage.Hex.{Hex, hex}
use indexer_go.Storage.Prefixes.{prefix_addr}
use indexer_go.Storage.Blocks.{address_transaction_key, address_transaction_key_prefix}

module _ {Address : Type 0} ⦃address_hex : Hex Address⦄ where
  -- A key of the index of an address determines the address and the sequence number.
  pub address_transaction_key_injective :
      (a b : Address) (n m : ℕ)
      → n < uint64_limit
      → m < uint64_limit
      → address_transaction_key a n ≡ address_transaction_key b m
      → (a ≡ b) × (n ≡ m)
  unfolding address_transaction_key
  address_transaction_key_injective a b n m h k e =
      let tails =
        append_cancel prefix_addr (hex a ++ slash ∷ padded 20 n) (hex b ++ slash ∷ padded 20 m) e in
      let parts =
        append_injective (hex a) (hex b) (slash ∷ padded 20 n) (slash ∷ padded 20 m)
          (address_hex.length_text a ∙ sym (address_hex.length_text b)) tails in
      (
        address_hex.text_injective a b parts.0,
        padded_injective 19 n m (omega arith) (omega arith)
            (append_cancel (slash ∷ []) (padded 20 n) (padded 20 m) parts.1),
      )

  -- A key of the index of an address that has the prefix of some address is a key of that address.
  pub address_transaction_key-prefix :
      (a b : Address) (n : ℕ)
      → has_prefix (address_transaction_key a n) (address_transaction_key_prefix b) ≡ true
      → a ≡ b
  unfolding address_transaction_key address_transaction_key_prefix
  address_transaction_key-prefix a b n h =
      let p = address_transaction_key_prefix b in
      let rest = trim_prefix (address_transaction_key a n) p in
      let whole = append-trim_prefix (address_transaction_key a n) p h in
      let grouped : prefix_addr ++ (hex b ++ (slash ∷ rest))
          ≡ prefix_addr ++ (hex a ++ slash ∷ padded 20 n) =
        sym (append_assoc (prefix_addr ++ hex b) (slash ∷ []) rest) ∙ whole in
      let tails =
        append_cancel prefix_addr (hex b ++ slash ∷ rest) (hex a ++ slash ∷ padded 20 n) grouped in
      let parts =
        append_injective (hex b) (hex a) (slash ∷ rest) (slash ∷ padded 20 n)
          (address_hex.length_text b ∙ sym (address_hex.length_text a)) tails in
      sym (address_hex.text_injective b a parts.0)
