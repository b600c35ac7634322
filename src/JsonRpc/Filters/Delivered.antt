-- ===== src/JsonRpc/Filters/Delivered.antt =====
-- The hashes of a run of heights, of which some may be left out.
use indexer_go.Base.{
  ℕ, zero, suc, ◌+◌, ◌≤◌, ◌<◌, ◌≡◌, ap, subst, ◌∙◌, List, [], ◌∷◌, ◌++◌, arith, inl, inr, ◌⊎◌,
}
use indexer_go.Text.{Bytes}
use indexer_go.Text.Equality.{bytes_eq}

-- The hashes of `count` heights from `n` on.
abbrev pub range : (ℕ → Bytes) → ℕ → ℕ → List Bytes
range chain n zero = []
range chain n (suc count) = chain n ∷ range chain (n + 1) count

-- The hashes of `count` heights from `n` on, each once and in order, but for heights with `Missed`.
abbrev pub Delivered : (ℕ → Bytes) → (ℕ → Type 0) → ℕ → ℕ → List Bytes → Type 0
Delivered chain Missed n zero hs = hs ≡ []
Delivered chain Missed n (suc count) hs =
    ((rest : List Bytes) × (hs ≡ chain n ∷ rest) × Delivered chain Missed (n + 1) count rest)
    ⊎ (Missed n × Delivered chain Missed (n + 1) count hs)

module _ (chain : ℕ → Bytes) where
  pub Delivered-weaken :
      (M N : ℕ → Type 0) (n count : ℕ) (hs : List Bytes)
      → ((x : ℕ) → M x → N x)
      → Delivered chain M n count hs
      → Delivered chain N n count hs
  Delivered-weaken M N n zero hs w d = d
  Delivered-weaken M N n (suc count) hs w (inl (rest, e, d)) =
      inl (rest, e, Delivered-weaken M N (n + 1) count rest w d)
  Delivered-weaken M N n (suc count) hs w (inr (m, d)) =
      inr (w n m, Delivered-weaken M N (n + 1) count hs w d)

  pub Delivered-append :
      (M : ℕ → Type 0) (n a b : ℕ) (hs ks : List Bytes)
      → Delivered chain M n a hs
      → Delivered chain M (n + a) b ks
      → Delivered chain M n (a + b) (hs ++ ks)
  Delivered-append M n zero b hs ks d e =
      let at : n + 0 ≡ n = omega arith in
      let z : 0 + b ≡ b = omega arith in rw (d, z) (subst (λ k. Delivered chain M k b ks) at e)
  Delivered-append M n (suc a) b hs ks d e =
      let at : n + suc a ≡ n + 1 + a = omega arith in
      let z : suc a + b ≡ suc (a + b) = omega arith in
      let next = subst (λ k. Delivered chain M k b ks) at e in
      elim d [
        | inl (rest, first, d') ↦ rw z (
            inl
              (rest ++ ks, ap (λ l. l ++ ks) first, Delivered-append M (n + 1) a b rest ks d' next))
        | inr (m, d') ↦ rw z (inr (m, Delivered-append M (n + 1) a b hs ks d' next))
      ]

  -- All hashes, or a missed height.
  pub Delivered-cases :
      (M : ℕ → Type 0) (n count : ℕ) (hs : List Bytes)
      → Delivered chain M n count hs
      → (hs ≡ range chain n count) ⊎ ((x : ℕ) × (n ≤ x) × (x < n + count) × M x)
  Delivered-cases M n zero hs d = inl d
  Delivered-cases M n (suc count) hs (inr (m, d)) = inr (n, omega arith, omega arith, m)
  Delivered-cases M n (suc count) hs (inl (rest, e, d)) =
      elim (Delivered-cases M (n + 1) count rest d) [
        | inl all ↦ inl (e ∙ ap (λ l. chain n ∷ l) all)
        | inr (x, a, b, m) ↦ inr (x, omega (arith, a), omega (arith, b), m)
      ]
