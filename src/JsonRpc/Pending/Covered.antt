-- ===== src/JsonRpc/Pending/Covered.antt =====
-- Two polls of the pool miss no transaction.
use indexer_go.Base.{
  ℕ, ◌-◌, ◌≤◌, ◌<◌, ◌≡◌, true, List, [], ◌∷◌, arith, Bool-cases, inl, inr, ltb, All, ◌⊎◌,
}
use indexer_go.Base.Dict.{has}
use indexer_go.Text.{Bytes}
use indexer_go.Text.Equality.{bytes_eq, bytes_beq_refl}
use indexer_go.JsonRpc.Pending.{PendingTransaction}
use indexer_go.JsonRpc.Pending.Entries.{after}

-- `since`: a client's position; `n`: the next index when it polled and got `first`.
module _ (since n : ℕ) (positive : 0 < n) (first : List Bytes) where
  -- Old for the client, returned by the first poll, or arrived after it.
  abbrev pub Seen : PendingTransaction → Type 0
  Seen t = (t.seen_index ≤ since) ⊎ (has t.hash first ≡ true) ⊎ (n ≤ t.seen_index)

  pub after-Seen :
      (l : List PendingTransaction)
      → ((h : Bytes) → has h (after since l) ≡ true → has h first ≡ true)
      → All Seen l
  unfolding has
  after-Seen [] inc = tt
  after-Seen (t ∷ l) inc = elim (Bool-cases (ltb since t.seen_index)) [
    | inl new ↦ (
      inr (inl (inc t.hash (rw new (ground (arith, bytes_beq_refl t.hash))))),
      after-Seen l (λ h i. inc h (rw new (ground (arith, i)))),
    )
    | inr old ↦ (inl (ground (arith, old)), after-Seen l (λ h i. inc h (rw old i)))
  ]

  pub after-covered :
      (second : List Bytes) (l : List PendingTransaction)
      → ((h : Bytes) → has h (after (n - 1) l) ≡ true → has h second ≡ true)
      → All Seen l
      → All (λ h. (has h first ≡ true) ⊎ (has h second ≡ true)) (after since l)
  unfolding has
  after-covered second [] inc a = tt
  after-covered second (t ∷ l) inc a =
      let ih =
        after-covered second l
          (λ h i. inc h (elim (Bool-cases (ltb (n - 1) t.seen_index)) [
            | inl new ↦ rw new (ground (arith, i))
            | inr old ↦ rw old i
          ]))
          a.1 in
      elim (Bool-cases (ltb since t.seen_index)) [
        | inr old ↦ rw old ih
        | inl new ↦ elim (a.0) [
          | inl le ↦ absurd (ground (arith, le, new))
          | inr (inl i) ↦ rw new (inl i, ih)
          | inr (inr ge) ↦
              let late : ltb (n - 1) t.seen_index ≡ true = ground (arith, ge, positive) in
              rw new (inr (inc t.hash (rw late (ground (arith, bytes_beq_refl t.hash)))), ih)
        ]
      ]
