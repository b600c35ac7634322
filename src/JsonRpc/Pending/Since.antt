-- ===== src/JsonRpc/Pending/Since.antt =====
-- GetTransactionsSince returns the entries above an index, and the highest index.
use mathlib.Core.List.{append_assoc, append-nil}
use indexer_go.Base.{
  ℕ, ◌≤◌, ◌<◌, ◌≡◌, refl, ap, ◌∙◌, sym, List, [], ◌∷◌, ◌++◌, some, arith, if◌then◌else◌, Bool-cases,
  Option-cases, inl, inr, ltb, All,
}
use indexer_go.Base.Dict.{lookup}
use indexer_go.Text.{Bytes}
use indexer_go.Text.Equality.{bytes_eq}
use indexer_go.JsonRpc.Pending.{PendingTransaction, PendingPool, since_loop, get_transactions_since}
use indexer_go.JsonRpc.Pending.Entries.{
  Details, entries_of, entries_of_missing, entries_of_present, entries, IsLinked, after,
}
use indexer_go.JsonRpc.Pending.Bounds.{Rising}

abbrev pub highest : ℕ → ℕ → List PendingTransaction → ℕ
highest since top [] = top
highest since top (t ∷ l) =
    highest since
      (if ltb since t.seen_index then if ltb top t.seen_index then t.seen_index else top else top) l

since_loop-after :
    (since : ℕ) (details : Details)
    → ((h : Bytes) (t : PendingTransaction) → lookup h details ≡ some t → t.hash ≡ h)
    → (hs result : List Bytes) (top : ℕ)
    → since_loop since details hs result top
      ≡ (result ++ after since (entries_of details hs), highest since top (entries_of details hs))
unfolding since_loop entries_of
since_loop-after since details named [] result top = rw (append-nil result) refl
since_loop-after since details named (h ∷ hs) result top = elim (Option-cases (lookup h details)) [
  | inl n ↦
      rw (n, entries_of_missing details h hs n, since_loop)
        (since_loop-after since details named hs result top)
  | inr (t, s) ↦
      let hash = named h t s in
      let ih = λ (r : List Bytes) (m : ℕ). since_loop-after since details named hs r m in
      let rest = entries_of details hs in
      let next = if ltb top t.seen_index then t.seen_index else top in
      elim (Bool-cases (ltb since t.seen_index)) [
        | inl new ↦
            rw (s, entries_of_present details h hs t s, since_loop, highest, new)
              (ih (result ++ h ∷ []) next
                ∙ ap (λ l. (l, highest since next rest))
                    (append_assoc result (h ∷ []) (after since rest)
                      ∙ ap (λ k. result ++ (k ∷ after since rest)) (sym hash)))
        | inr old ↦
            rw (s, entries_of_present details h hs t s, since_loop, highest, old) (ih result top)
      ]
]

pub highest-bounds :
    (since top : ℕ) (l : List PendingTransaction)
    → since ≤ top
    → (top ≤ highest since top l) × All (λ t. t.seen_index ≤ highest since top l) l
highest-bounds since top [] b = (omega arith, tt)
highest-bounds since top (t ∷ l) b =
    let next =
      if ltb since t.seen_index then if ltb top t.seen_index then t.seen_index else top else top in
    let ih = highest-bounds since next l (ground (arith, b)) in
    (ground (arith, b, ih.0), (ground (arith, b, ih.0), ih.1))

pub highest-lt :
    (since top lo hi : ℕ) (l : List PendingTransaction)
    → top < hi
    → Rising lo hi l
    → highest since top l < hi
highest-lt since top lo hi [] b r = b
highest-lt since top lo hi (t ∷ l) b r =
    highest-lt since
      (if ltb since t.seen_index then if ltb top t.seen_index then t.seen_index else top else top)
      t.seen_index hi l (ground (arith, b, r.0, r.1)) r.2

pub get_transactions_since_lem :
    (since : ℕ) (p : PendingPool)
    → IsLinked p
    → get_transactions_since since p ≡ (after since (entries p), highest since since (entries p))
unfolding get_transactions_since
get_transactions_since_lem since p l =
    since_loop-after since p.tx_details l.3 p.transactions [] since
