-- ===== src/Storage/Hex.antt =====
-- The texts of addresses and hashes. Address.Hex and Hash.Hex are go-ethereum's: the keys use
-- that they are injective, have one length for each type, and are texts without a slash.
use indexer_go.Base.{ℕ, ◌≡◌, length, All}
use indexer_go.Text.{Bytes}
use indexer_go.Text.Split.{IsNoSlash}

pub record Hex (A : Type 0) : Type 0 where
  pub text : A → Bytes
  pub width : ℕ
  pub length_text : (a : A) → length (text a) ≡ width
  pub text_injective : (a b : A) → text a ≡ text b → a ≡ b
  pub text_IsNoSlash : (a : A) → All IsNoSlash (text a)

abbrev pub hex : {A : Type 0} ⦃h : Hex A⦄ → A → Bytes
hex ⦃h⦄ = h.text
