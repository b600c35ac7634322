-- ===== src/JsonRpc/Pending/Entries.antt =====
-- The pool as one list of transactions in order of arrival: what each operation of the pool, which
-- keeps a list of hashes and a map of details, does to that list.
use indexer_go.Base.{
  ℕ, suc, ◌≡◌, refl, ap, ◌∙◌, sym, Bool, true, false, List, [], ◌∷◌, ◌++◌, none, some, arith,
  if◌then◌else◌, Option-cases, inl, inr, leb, ltb, length, map,
}
use indexer_go.Base.Dict.{
  lookup, insert, delete, is_some, has, Distinct, keys, lookup-insert, lookup-delete,
}
use indexer_go.Text.{Bytes}
use indexer_go.Text.Equality.{bytes_eq, bytes_beq, bytes_beq_refl, bytes_beq_iff}
use indexer_go.JsonRpc.Pending.{PendingTransaction, PendingPool, is_expired, known}

abbrev pub Details : Type 0
Details = List (Bytes × PendingTransaction)

-- The details of the hashes, in the order of the hashes.
unfoldable pub entries_of : Details → List Bytes → List PendingTransaction
entries_of details [] = []
entries_of details (hash ∷ rest) = elim (lookup hash details) [
  | none ↦ entries_of details rest
  | some t ↦ t ∷ entries_of details rest
]

abbrev pub entries : PendingPool → List PendingTransaction
entries p = entries_of p.tx_details p.transactions

abbrev pub hashes : List PendingTransaction → List Bytes
hashes = map (λ t. t.hash)

-- The list without its first transaction, where the pool is full.
abbrev pub dropped_oldest : Bool → List PendingTransaction → List PendingTransaction
dropped_oldest true (t ∷ rest) = rest
dropped_oldest _ l = l

-- The list without the first transaction of a hash.
abbrev pub leave : Bytes → List PendingTransaction → List PendingTransaction
leave hash [] = []
leave hash (t ∷ rest) = if bytes_beq t.hash hash then rest else t ∷ leave hash rest

abbrev pub fresh : ℕ → ℕ → List PendingTransaction → List PendingTransaction
fresh now ttl [] = []
fresh now ttl (t ∷ rest) =
    let others = fresh now ttl rest in if is_expired now ttl t then others else t ∷ others

-- The hashes of the transactions with an index above `since`.
abbrev pub after : ℕ → List PendingTransaction → List Bytes
after since [] = []
after since (t ∷ rest) =
    let others = after since rest in if ltb since t.seen_index then t.hash ∷ others else others

-- Each hash has its details, and each detail has its hash.
abbrev pub Linked : Details → List Bytes → Type 0
Linked details txs =
    Distinct txs
    × Distinct (keys details)
    × ((h : Bytes) → has h txs ≡ is_some (lookup h details))
    × ((h : Bytes) (t : PendingTransaction) → lookup h details ≡ some t → t.hash ≡ h)

abbrev pub IsLinked : PendingPool → Type 0
IsLinked p = Linked p.tx_details p.transactions

-- The list after `t` arrived, in a pool of at most `max_size` transactions.
abbrev pub arrive : ℕ → PendingTransaction → List PendingTransaction → List PendingTransaction
arrive max_size t l =
    if has t.hash (hashes l) then l else dropped_oldest (leb max_size (length l)) l ++ t ∷ []

module _ (details : Details) where
  pub entries_of_missing :
      (h : Bytes) (hs : List Bytes)
      → lookup h details ≡ none
      → entries_of details (h ∷ hs) ≡ entries_of details hs
  unfolding entries_of
  entries_of_missing h hs e = rw (e, entries_of) refl

  pub entries_of_present :
      (h : Bytes) (hs : List Bytes) (t : PendingTransaction)
      → lookup h details ≡ some t
      → entries_of details (h ∷ hs) ≡ t ∷ entries_of details hs
  unfolding entries_of
  entries_of_present h hs t e = rw (e, entries_of) refl

  pub entries_of-append :
      (xs ys : List Bytes)
      → entries_of details (xs ++ ys) ≡ entries_of details xs ++ entries_of details ys
  unfolding entries_of
  entries_of-append [] ys = refl
  entries_of-append (a ∷ xs) ys = elim (Option-cases (lookup a details)) [
    | inl e ↦
        rw (entries_of_missing a (xs ++ ys) e, entries_of_missing a xs e) (entries_of-append xs ys)
    | inr (t, e) ↦
        rw (entries_of_present a (xs ++ ys) t e, entries_of_present a xs t e)
          (ap (λ l. t ∷ l) (entries_of-append xs ys))
  ]

-- Two maps that agree on the hashes have the same entries.
pub entries_of-agree :
    (few many : Details) (hs : List Bytes)
    → ((h : Bytes) → has h hs ≡ true → lookup h few ≡ lookup h many)
    → entries_of few hs ≡ entries_of many hs
unfolding entries_of has
entries_of-agree few many [] e = refl
entries_of-agree few many (h ∷ hs) e =
    let here : lookup h few ≡ lookup h many = e h (rw (bytes_beq_refl h) refl) in
    let ih = entries_of-agree few many hs (λ k q. e k (ground (arith, q))) in
    elim (Option-cases (lookup h many)) [
      | inl n ↦ rw (entries_of_missing few h hs (here ∙ n), entries_of_missing many h hs n) ih
      | inr (t, s) ↦
          rw (entries_of_present few h hs t (here ∙ s), entries_of_present many h hs t s)
            (ap (λ l. t ∷ l) ih)
    ]

pub entries_of-insert :
    (k : Bytes) (v : PendingTransaction) (details : Details) (hs : List Bytes)
    → has k hs ≡ false
    → entries_of (insert k v details) hs ≡ entries_of details hs
entries_of-insert k v details hs out =
    entries_of-agree (insert k v details) details hs
      (λ h i. ground (arith, lookup-insert k h v details, bytes_beq_iff k h, out, i))

pub entries_of-delete :
    (k : Bytes) (details : Details) (hs : List Bytes)
    → has k hs ≡ false
    → entries_of (delete k details) hs ≡ entries_of details hs
entries_of-delete k details hs out =
    entries_of-agree (delete k details) details hs
      (λ h i. ground (arith, lookup-delete k h details, bytes_beq_iff k h, out, i))

-- The hash of an entry is that of its place.
pub entries_of-hashes :
    (details : Details) (hs : List Bytes)
    → ((h : Bytes) → has h hs ≡ true → is_some (lookup h details) ≡ true)
    → ((h : Bytes) (t : PendingTransaction) → lookup h details ≡ some t → t.hash ≡ h)
    → hashes (entries_of details hs) ≡ hs
unfolding entries_of has
entries_of-hashes details [] known named = refl
entries_of-hashes details (h ∷ hs) known named =
    let ih = entries_of-hashes details hs (λ k q. known k (ground (arith, q))) named in
    let here : is_some (lookup h details) ≡ true = known h (rw (bytes_beq_refl h) refl) in
    elim (Option-cases (lookup h details)) [
      | inl n ↦ absurd (ground (arith, here, n))
      | inr (t, s) ↦ rw (entries_of_present details h hs t s, named h t s, ih) refl
    ]

pub hashes-entries : (p : PendingPool) → IsLinked p → hashes (entries p) ≡ p.transactions
hashes-entries p l = entries_of-hashes p.tx_details p.transactions (λ h q. sym (l.2 h) ∙ q) l.3

length-hashes : (l : List PendingTransaction) → length (hashes l) ≡ length l
length-hashes [] = refl
length-hashes (t ∷ l) = ap suc (length-hashes l)

pub length-entries : (p : PendingPool) → IsLinked p → length (entries p) ≡ length p.transactions
length-entries p l = sym (length-hashes (entries p)) ∙ ap length (hashes-entries p l)
