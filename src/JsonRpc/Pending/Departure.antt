-- ===== src/JsonRpc/Pending/Departure.antt =====
-- RemoveTransaction and cleanup keep the hashes and the details together, and act on the list of
-- entries.
use indexer_go.Base.{
  ◌≡◌, refl, ap, ◌∙◌, sym, true, false, List, [], ◌∷◌, some, arith, Bool-cases, Option-cases, inl,
  inr,
}
use indexer_go.Base.Dict.{
  lookup, delete, remove, is_some, has, Distinct, lookup-delete, has-remove, remove-Distinct,
  delete-Distinct,
}
use indexer_go.Text.{Bytes}
use indexer_go.Text.Equality.{bytes_eq, bytes_beq, bytes_beq_refl, bytes_beq_sound, bytes_beq_iff}
use indexer_go.JsonRpc.Pending.{PendingTransaction, PendingPool, remove_transaction}
use indexer_go.JsonRpc.Pending.Entries.{
  Details, entries_of, entries, IsLinked, leave, hashes, hashes-entries, entries_of-delete,
  entries_of_present,
}

entries_of-remove :
    (h : Bytes) (details : Details) (hs : List Bytes)
    → Distinct hs
    → ((k : Bytes) → has k hs ≡ true → is_some (lookup k details) ≡ true)
    → ((k : Bytes) (t : PendingTransaction) → lookup k details ≡ some t → t.hash ≡ k)
    → entries_of (delete h details) (remove h hs) ≡ leave h (entries_of details hs)
unfolding entries_of remove has
entries_of-remove h details [] d listed named = refl
entries_of-remove h details (k ∷ hs) d listed named =
    let here : is_some (lookup k details) ≡ true = listed k (rw (bytes_beq_refl k) refl) in
    elim (Option-cases (lookup k details)) [
      | inl n ↦ absurd (ground (arith, here, n))
      | inr (t, s) ↦
          let hash = named k t s in
          let ih = entries_of-remove h details hs d.1 (λ j q. listed j (ground (arith, q))) named in
          elim (Bool-cases (bytes_beq k h)) [
            | inl same ↦
                let e : h ≡ k = sym (bytes_beq_sound k h same) in
                rw (entries_of_present details k hs t s, same, ap (λ j. bytes_beq j h) hash ∙ same)
                  (entries_of-delete h details hs (rw e d.0))
            | inr other ↦
                let kept : lookup k (delete h details) ≡ some t = ground (
                  arith,
                  lookup-delete h k details,
                  bytes_beq_iff h k,
                  bytes_beq_iff k h,
                  s,
                  other,
                ) in
                rw
                  (
                    entries_of_present details k hs t s,
                    other,
                    entries_of_present (delete h details) k (remove h hs) t kept,
                    ap (λ j. bytes_beq j h) hash ∙ other,
                  )
                  (ap (λ l. t ∷ l) ih)
          ]
    ]

leave_absent : (h : Bytes) (l : List PendingTransaction) → has h (hashes l) ≡ false → leave h l ≡ l
unfolding has
leave_absent h [] e = refl
leave_absent h (t ∷ l) e = ground (arith, e, leave_absent h l)

pub remove_transaction_lem :
    (h : Bytes) (p : PendingPool)
    → IsLinked p
    → IsLinked (remove_transaction h p)
      × (entries (remove_transaction h p) ≡ leave h (entries p))
      × ((remove_transaction h p).next_index ≡ p.next_index)
unfolding remove_transaction
remove_transaction_lem h p l = elim (Bool-cases (is_some (lookup h p.tx_details))) [
  | inr out ↦
      rw out (l, sym (leave_absent h (entries p) (rw (hashes-entries p l) (l.2 h ∙ out))), refl)
  | inl there ↦ rw there (
    (
      remove-Distinct h p.transactions l.0,
      delete-Distinct h p.tx_details l.1,
      λ k. ground (
        arith,
        has-remove h k p.transactions l.0,
        lookup-delete h k p.tx_details,
        l.2 k,
        bytes_beq_iff h k,
        bytes_beq_iff k h,
      ),
      λ k t e. l.3 k t (ground (arith, lookup-delete h k p.tx_details, e)),
    ),
    entries_of-remove h p.tx_details p.transactions l.0 (λ k q. sym (l.2 k) ∙ q) l.3,
    refl,
  )
]
