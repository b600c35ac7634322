-- ===== src/Base/Dict.antt =====
-- Go maps as association lists without a repeated key, and lists of keys, over an interface of
-- keys that can be compared.
use Prim.Native.String.{String}
use text.Mathlib.Text.{◌==◌ as str_eq}
use text.Mathlib.TextEquality.{eq_iff}
use indexer_go.Base.{
  ℕ, suc, ◌≡◌, ◌↔◌, refl, Bool, true, false, ◌||◌, List, [], ◌∷◌, Option, none, some, map, arith,
  if◌then◌else◌, length, ==_iff, ◌==◌ as nat_beq,
}

pub record Eq {ℓ} (K : Type ℓ) : Type ℓ where
  pub beq : K → K → Bool
  pub beq_iff : (a b : K) → (beq a b ≡ true) ↔ (a ≡ b)

infix 50 ◌==◌
abbrev pub ◌==◌ {ℓ} : {K : Type ℓ} ⦃e : Eq K⦄ → K → K → Bool
◌==◌ ⦃e⦄ = e.beq

instance abbrev pub string_eq : Eq String
string_eq = record { beq = str_eq; beq_iff = eq_iff }

instance abbrev pub nat_eq : Eq ℕ
nat_eq = record { beq = nat_beq; beq_iff = ==_iff }

abbrev pub is_some {ℓ} : {A : Type ℓ} → Option A → Bool
is_some none = false
is_some (some a) = true

module _ {ℓ} {K : Type ℓ} ⦃e : Eq K⦄ where
  pub beq_refl : (k : K) → (k == k) ≡ true
  beq_refl k = (e.beq_iff k k).1 refl

  unfoldable pub has : K → List K → Bool
  has k [] = false
  has k (j ∷ ks) = j == k || has k ks

  abbrev pub Distinct : List K → Type 0
  Distinct [] = Unit
  Distinct (j ∷ ks) = (has j ks ≡ false) × Distinct ks

  -- Without the first `k`.
  unfoldable pub remove : K → List K → List K
  remove k [] = []
  remove k (j ∷ ks) = if j == k then ks else j ∷ remove k ks

  pub has-remove :
      (k j : K) (ks : List K)
      → Distinct ks
      → has j (remove k ks) ≡ (if j == k then false else has j ks)
  unfolding has remove
  has-remove k j [] d = ground arith
  has-remove k j (i ∷ ks) d =
      ground (arith, e.beq_iff i k, e.beq_iff i j, e.beq_iff j k, has-remove k j ks d.1)

  pub remove-Distinct : (k : K) (ks : List K) → Distinct ks → Distinct (remove k ks)
  unfolding remove
  remove-Distinct k [] d = tt
  remove-Distinct k (i ∷ ks) d = ground (arith, has-remove k i ks d.1, remove-Distinct k ks d.1)

  pub length-remove :
      (k : K) (ks : List K) → has k ks ≡ true → suc (length (remove k ks)) ≡ length ks
  unfolding has remove
  length-remove k [] h = absurd (ground arith)
  length-remove k (i ∷ ks) h = ground (arith, length-remove k ks)

  module _ {κ} {V : Type κ} where
    unfoldable pub lookup : K → List (K × V) → Option V
    lookup k [] = none
    lookup k ((i, w) ∷ rest) = if i == k then some w else lookup k rest

    -- delete(m, k)
    unfoldable pub delete : K → List (K × V) → List (K × V)
    delete k [] = []
    delete k ((i, w) ∷ rest) = if i == k then delete k rest else (i, w) ∷ delete k rest

    -- m[k] = v
    unfoldable pub insert : K → V → List (K × V) → List (K × V)
    insert k v [] = (k, v) ∷ []
    insert k v ((i, w) ∷ rest) = if i == k then (i, v) ∷ rest else (i, w) ∷ insert k v rest

    -- A read after a write.
    pub lookup-insert :
        (written asked : K) (v : V) (rest : List (K × V))
        → lookup asked (insert written v rest)
          ≡ (if written == asked then some v else lookup asked rest)
    unfolding insert lookup
    lookup-insert written asked v [] = refl
    lookup-insert written asked v ((i, w) ∷ rest) = ground (
      arith,
      lookup-insert written asked v rest,
      e.beq_iff i written,
      e.beq_iff i asked,
      e.beq_iff written asked,
    )

    pub lookup-delete :
        (k j : K) (m : List (K × V)) → lookup j (delete k m) ≡ (if k == j then none else lookup j m)
    unfolding lookup delete
    lookup-delete k j [] = ground arith
    lookup-delete k j ((i, w) ∷ m) =
        ground (arith, e.beq_iff k j, e.beq_iff i k, e.beq_iff i j, lookup-delete k j m)

    abbrev pub keys : List (K × V) → List K
    keys = map (λ p. p.0)

    pub has-keys : (k : K) (m : List (K × V)) → has k (keys m) ≡ is_some (lookup k m)
    unfolding has lookup
    has-keys k [] = refl
    has-keys k ((j, v) ∷ m) = ground (arith, has-keys k m)

    pub insert-Distinct :
        (k : K) (v : V) (m : List (K × V)) → Distinct (keys m) → Distinct (keys (insert k v m))
    unfolding has insert
    insert-Distinct k v [] d = (refl, tt)
    insert-Distinct k v ((j, w) ∷ m) d = ground (
      arith,
      e.beq_iff j k,
      e.beq_iff k j,
      has-keys j (insert k v m),
      lookup-insert k j v m,
      has-keys j m,
      insert-Distinct k v m d.1,
    )

    pub delete-Distinct :
        (k : K) (m : List (K × V)) → Distinct (keys m) → Distinct (keys (delete k m))
    unfolding has delete
    delete-Distinct k [] d = tt
    delete-Distinct k ((j, w) ∷ m) d =
        ground (
          arith,
          has-keys j (delete k m),
          lookup-delete k j m,
          has-keys j m,
          delete-Distinct k m d.1,
        )

    pub length-keys : (m : List (K × V)) → length (keys m) ≡ length m
    length-keys [] = refl
    length-keys (p ∷ m) = omega (arith, length-keys m)
