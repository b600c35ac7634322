-- ===== src/JsonRpc/Pending/Expiry.antt =====
-- cleanup keeps the hashes and the details together, and leaves the entries that are not expired.
use indexer_go.Base.{
  ℕ, ◌≡◌, refl, ap, ◌∙◌, sym, Bool, false, ◌&&◌, List, [], ◌∷◌, Option, none, some, arith,
  if◌then◌else◌, Bool-cases, Option-cases, inl, inr,
}
use indexer_go.Base.Dict.{
  lookup, delete, is_some, has, Distinct, keys, lookup-delete, has-keys, delete-Distinct,
}
use indexer_go.Text.{Bytes}
use indexer_go.Text.Equality.{bytes_eq, bytes_beq, bytes_beq_iff}
use indexer_go.JsonRpc.Pending.{
  PendingTransaction, PendingPool, is_expired, known, expired, delete_all, rebuilt, cleanup,
}
use indexer_go.JsonRpc.Pending.Entries.{
  Details, entries_of, entries, IsLinked, fresh, entries_of_present, entries_of_missing,
}

abbrev gone : ℕ → ℕ → Option PendingTransaction → Bool
gone now ttl none = false
gone now ttl (some t) = is_expired now ttl t

lookup-delete_all :
    (hs : List Bytes) (details : Details) (k : Bytes)
    → lookup k (delete_all hs details) ≡ (if has k hs then none else lookup k details)
unfolding delete_all has
lookup-delete_all [] details k = refl
lookup-delete_all (h ∷ hs) details k =
    ground (arith, lookup-delete_all hs (delete h details) k, lookup-delete h k details)

delete_all-Distinct :
    (hs : List Bytes) (details : Details)
    → Distinct (keys details)
    → Distinct (keys (delete_all hs details))
unfolding delete_all
delete_all-Distinct [] details d = d
delete_all-Distinct (h ∷ hs) details d =
    delete_all-Distinct hs (delete h details) (delete-Distinct h details d)

has-expired :
    (now ttl : ℕ) (details : Details) (k : Bytes)
    → Distinct (keys details)
    → has k (expired now ttl details) ≡ gone now ttl (lookup k details)
unfolding expired has lookup
has-expired now ttl [] k d = refl
has-expired now ttl ((h, t) ∷ rest) k d =
    let ih = has-expired now ttl rest k d.1 in
    let out = has-keys h rest in
    elim (Bool-cases (bytes_beq h k)) [
      | inr other ↦ ground (arith, ih, other)
      | inl same ↦
          let e : h ≡ k = (bytes_beq_iff h k).0 same in
          let none_there : is_some (lookup k rest) ≡ false = rw⁻¹ e (sym out ∙ d.0) in
          ground (arith, ih, same, none_there)
    ]

has-known :
    (details : Details) (k : Bytes) (hs : List Bytes)
    → has k (known details hs) ≡ (has k hs && is_some (lookup k details))
unfolding known has
has-known details k [] = refl
has-known details k (h ∷ hs) = elim (Bool-cases (bytes_beq h k)) [
  | inr other ↦ ground (arith, has-known details k hs, other)
  | inl same ↦
      let e : h ≡ k = (bytes_beq_iff h k).0 same in
      rw e (ground (arith, has-known details k hs, bytes_beq_iff k k))
]

known-Distinct : (details : Details) (hs : List Bytes) → Distinct hs → Distinct (known details hs)
unfolding known
known-Distinct details [] d = tt
known-Distinct details (h ∷ hs) d =
    ground (arith, known-Distinct details hs d.1, has-known details h hs, d.0)

-- The details `left` after the expired ones of `details` were deleted.
module _ (now ttl : ℕ) (details left : Details)
    (read : (k : Bytes)
      → lookup k left ≡ (if gone now ttl (lookup k details) then none else lookup k details)) where
  entries_of-known :
      (hs : List Bytes) → entries_of left (known left hs) ≡ fresh now ttl (entries_of details hs)
  unfolding known entries_of
  entries_of-known [] = refl
  entries_of-known (h ∷ hs) = elim (Option-cases (lookup h details)) [
    | inl n ↦
        let none_left : lookup h left ≡ none = read h ∙ rw n refl in
        rw (none_left, entries_of_missing details h hs n) (entries_of-known hs)
    | inr (t, s) ↦ elim (Bool-cases (is_expired now ttl t)) [
      | inl old ↦
          let none_left : lookup h left ≡ none = read h ∙ rw (s, old) refl in
          rw (none_left, entries_of_present details h hs t s, old) (entries_of-known hs)
      | inr new ↦
          let some_left : lookup h left ≡ some t = read h ∙ rw (s, new) refl in
          rw
            (
              some_left,
              entries_of_present left h (known left hs) t some_left,
              entries_of_present details h hs t s,
              new,
            )
            (ap (λ l. t ∷ l) (entries_of-known hs))
    ]
  ]

fresh-same :
    (now ttl : ℕ) (details : Details) (hs : List Bytes)
    → ((k : Bytes) → gone now ttl (lookup k details) ≡ false)
    → fresh now ttl (entries_of details hs) ≡ entries_of details hs
unfolding entries_of
fresh-same now ttl details [] e = refl
fresh-same now ttl details (h ∷ hs) e = elim (Option-cases (lookup h details)) [
  | inl n ↦ rw (entries_of_missing details h hs n) (fresh-same now ttl details hs e)
  | inr (t, s) ↦
      let new : is_expired now ttl t ≡ false = ap (gone now ttl) (sym s) ∙ e h in
      rw (entries_of_present details h hs t s, new)
        (ap (λ l. t ∷ l) (fresh-same now ttl details hs e))
]

rebuilt_lem :
    (now : ℕ) (p : PendingPool) (hs : List Bytes)
    → expired now p.ttl p.tx_details ≡ hs
    → IsLinked p
    → IsLinked (rebuilt hs p)
      × (entries (rebuilt hs p) ≡ fresh now p.ttl (entries p))
      × ((rebuilt hs p).next_index ≡ p.next_index)
unfolding has
rebuilt_lem now p [] e l =
    let stay = λ (k : Bytes). sym (has-expired now p.ttl p.tx_details k l.1) ∙ ap (has k) e in
    (l, sym (fresh-same now p.ttl p.tx_details p.transactions stay), refl)
rebuilt_lem now p (h ∷ hs) e l =
    let left = delete_all (h ∷ hs) p.tx_details in
    let read = λ (k : Bytes). lookup-delete_all (h ∷ hs) p.tx_details k in
    let away = λ (k : Bytes). ap (has k) (sym e) ∙ has-expired now p.ttl p.tx_details k l.1 in
    let named : (k : Bytes) (t : PendingTransaction) → lookup k left ≡ some t → t.hash ≡ k =
      λ k t q. l.3 k t (ground (arith, read k, q)) in
    let same : (k : Bytes) → has k (known left p.transactions) ≡ is_some (lookup k left) =
      λ k. ground (arith, has-known left k p.transactions, read k, l.2 k) in
    (
      (
        known-Distinct left p.transactions l.0,
        delete_all-Distinct (h ∷ hs) p.tx_details l.1,
        same,
        named,
      ),
      entries_of-known now p.ttl p.tx_details left
          (λ k. read k ∙ ap (λ b. if b then none else lookup k p.tx_details) (away k))
          p.transactions,
      refl,
    )

pub cleanup_lem :
    (now : ℕ) (p : PendingPool)
    → IsLinked p
    → IsLinked (cleanup now p)
      × (entries (cleanup now p) ≡ fresh now p.ttl (entries p))
      × ((cleanup now p).next_index ≡ p.next_index)
unfolding cleanup
cleanup_lem now p l = rebuilt_lem now p (expired now p.ttl p.tx_details) refl l
