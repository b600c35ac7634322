-- ===== src/Storage/AddressIndex/Kept.antt =====
-- Entries of the index of addresses are kept while the process runs, and lost after a restart.
use indexer_go.Base.{
  ℕ, suc, ◌+◌, ◌%◌, ◌≤◌, ◌<◌, ◌≡◌, ◌≢◌, refl, ap, ◌∙◌, ◌⊎◌, inl, inr, Bool, true, false, List, [],
  ◌∷◌, Option, none, some, arith, if◌then◌else◌, Bool-cases, Option-cases, length,
}
use indexer_go.Base.Dict.{Eq, lookup, lookup-insert, beq_refl}
use indexer_go.Text.{Bytes, uint64_limit}
use indexer_go.Storage.Hex.{Hex}
use indexer_go.Storage.Store.{Store}
use indexer_go.Storage.Blocks.{address_transaction_key}
use indexer_go.Storage.Isolation.{address_transaction_key_injective}
use indexer_go.Storage.AddressIndex.{
  PebbleStorage, new_pebble_storage, next_seq, or_zero, reserve, add_transaction_to_address_index,
  add_all,
}

module _ {S Address : Type 0} ⦃store : Store S⦄ ⦃address_hex : Hex Address⦄
    ⦃address_eq : Eq Address⦄ where
  -- No counter wraps around in the next `k` calls.
  abbrev pub Fits : PebbleStorage S Address → ℕ → Type 0
  Fits s k = (a : Address) → next_seq s a + k < uint64_limit

  entry : PebbleStorage S Address → Address → ℕ → Option Bytes
  entry s a n = store.read s.db (address_transaction_key a n)

  next_seq-reserve :
      (s : PebbleStorage S Address) (a b : Address)
      → next_seq (reserve s a) b
        ≡ (if address_eq.beq a b then (next_seq s a + 1) % uint64_limit else next_seq s b)
  unfolding next_seq reserve
  next_seq-reserve s a b =
      let n = (or_zero (lookup a s.addr_seq) + 1) % uint64_limit in
      rw (lookup-insert a b n s.addr_seq) (if_or_zero (address_eq.beq a b) n (lookup b s.addr_seq))
    where
      if_or_zero :
          (c : Bool) (n : ℕ) (o : Option ℕ)
          → or_zero (if c then some n else o) ≡ (if c then n else or_zero o)
      if_or_zero true n o = refl
      if_or_zero false n o = refl

  -- A call leaves everything, or reserves a number and fails to write, or writes its entry.
  add-cases :
      (s : PebbleStorage S Address) (a : Address) (h : Bytes)
      → let r = add_transaction_to_address_index s a h in
        ((r.0 ≡ s) × (r.1 ≢ none))
        ⊎ (((r.0 ≡ reserve s a) × (r.1 ≢ none))
            ⊎ ((store.write s.db (address_transaction_key a (next_seq s a)) h ≡ some r.0.db)
                × (r.0.addr_seq ≡ (reserve s a).addr_seq)))
  unfolding add_transaction_to_address_index
  add-cases s a h = elim (Bool-cases s.closed) [
    | inl closed ↦ inl (rw closed (refl, λ e. absurd (ground arith)))
    | inr opened ↦ elim (Bool-cases s.read_only) [
      | inl fixed ↦ inl (rw (opened, fixed) (refl, λ e. absurd (ground arith)))
      | inr free ↦
          elim (Option-cases (store.write s.db (address_transaction_key a (next_seq s a)) h)) [
            | inl failed ↦ inr (inl (rw (opened, free, failed) (refl, λ e. absurd (ground arith))))
            | inr (t, done) ↦ inr (inr (rw (opened, free, done) (refl, refl)))
          ]
    ]
  ]

  next_seq-addr_seq :
      (t u : PebbleStorage S Address) (b : Address)
      → t.addr_seq ≡ u.addr_seq
      → next_seq t b ≡ next_seq u b
  unfolding next_seq
  next_seq-addr_seq t u b e = ap (λ m. or_zero (lookup b m)) e

  reserve-moves :
      (s : PebbleStorage S Address) (a b : Address)
      → Fits s 1
      → (next_seq s b ≤ next_seq (reserve s a) b) × (next_seq (reserve s a) b ≤ next_seq s b + 1)
  reserve-moves s a b fits =
      let value = next_seq-reserve s a b in
      let room = fits a in
      elim (Bool-cases (address_eq.beq a b)) [
        | inl same ↦
            let e = ap (next_seq s) ((address_eq.beq_iff a b).0 same) in
            let moved = rw same at value in omega (arith, e, room, moved)
        | inr other ↦ let kept = rw other at value in omega (arith, kept)
      ]

  -- A counter never goes back, and a call moves it by one at most.
  next_seq-add :
      (s : PebbleStorage S Address) (a b : Address) (h : Bytes)
      → Fits s 1
      → let t = (add_transaction_to_address_index s a h).0 in
        (next_seq s b ≤ next_seq t b) × (next_seq t b ≤ next_seq s b + 1)
  next_seq-add s a b h fits = elim (add-cases s a h) [
    | inl (same, _) ↦ rw same (omega arith)
    | inr (inl (reserved, _)) ↦ rw reserved (reserve-moves s a b fits)
    | inr (inr (_, counted)) ↦
        let e =
          next_seq-addr_seq (add_transaction_to_address_index s a h).0 (reserve s a) b counted in
        omega (arith, e, reserve-moves s a b fits)
  ]

  entry-reserve :
      (s : PebbleStorage S Address) (a b : Address) (n : ℕ)
      → store.read (reserve s a).db (address_transaction_key b n)
        ≡ store.read s.db (address_transaction_key b n)
  unfolding reserve
  entry-reserve s a b n = refl

  -- The entry of a new number is none of those below a counter.
  entries_apart :
      (s : PebbleStorage S Address) (a b : Address) (n : ℕ)
      → Fits s 1
      → n < next_seq s b
      → address_transaction_key b n ≢ address_transaction_key a (next_seq s a)
  entries_apart s a b n fits below e =
      let small : n < uint64_limit = omega (arith, fits b, below) in
      let fresh : next_seq s a < uint64_limit = omega (arith, fits a) in
      let parts = address_transaction_key_injective b a n (next_seq s a) small fresh e in
      let same = ap (next_seq s) parts.0 in absurd (omega (arith, parts.1, same, below))

  -- A call keeps every entry below the counter of its address.
  entry-add :
      (s : PebbleStorage S Address) (a b : Address) (h : Bytes) (n : ℕ)
      → Fits s 1
      → n < next_seq s b
      → entry (add_transaction_to_address_index s a h).0 b n ≡ entry s b n
  unfolding entry
  entry-add s a b h n fits below = elim (add-cases s a h) [
    | inl (same, _) ↦ rw same refl
    | inr (inl (reserved, _)) ↦
        ap (λ t. store.read t.db (address_transaction_key b n)) reserved ∙ entry-reserve s a b n
    | inr (inr (done, _)) ↦
        store.read-write_ne s.db (add_transaction_to_address_index s a h).0.db
          (address_transaction_key a (next_seq s a)) (address_transaction_key b n) h done
          (entries_apart s a b n fits below)
  ]

  -- Any calls keep every entry below the counter of its address, while no counter wraps around.
  pub add_all-keeps :
      (calls : List (Address × Bytes)) (s : PebbleStorage S Address) (b : Address) (n : ℕ)
      → Fits s (length calls)
      → n < next_seq s b
      → store.read (add_all s calls).db (address_transaction_key b n)
        ≡ store.read s.db (address_transaction_key b n)
  unfolding add_all entry
  add_all-keeps [] s b n fits below = refl
  add_all-keeps ((a, h) ∷ calls) s b n fits below =
      let t = (add_transaction_to_address_index s a h).0 in
      let one : Fits s 1 = λ c. omega (arith, fits c) in
      let more : Fits t (length calls) = λ c. omega (arith, fits c, next_seq-add s a c h one) in
      add_all-keeps calls t b n more (omega (arith, below, next_seq-add s a b h one))
      ∙ entry-add s a b h n one below

  -- A call that succeeds writes the hash under the number that the counter of the address had,
  -- and moves that counter.
  add-stores :
      (s : PebbleStorage S Address) (a : Address) (h : Bytes)
      → (add_transaction_to_address_index s a h).1 ≡ none
      → let t = (add_transaction_to_address_index s a h).0 in
        (store.read t.db (address_transaction_key a (next_seq s a)) ≡ some h)
        × (t.addr_seq ≡ (reserve s a).addr_seq)
  add-stores s a h ok = elim (add-cases s a h) [
    | inl (_, failed) ↦ absurd (failed ok)
    | inr (inl (_, failed)) ↦ absurd (failed ok)
    | inr (inr (done, counted)) ↦ (
      store.read-write_self s.db (add_transaction_to_address_index s a h).0.db
          (address_transaction_key a (next_seq s a)) h done,
      counted,
    )
  ]

  -- A call that succeeds stores the hash under the number that the counter of the address had,
  -- and it stays there during any further calls, whatever their addresses and outcomes, while no
  -- counter wraps around.
  pub added-kept :
      (s : PebbleStorage S Address) (a : Address) (h : Bytes) (calls : List (Address × Bytes))
      → Fits s (suc (length calls))
      → (add_transaction_to_address_index s a h).1 ≡ none
      → store.read (add_all s ((a, h) ∷ calls)).db (address_transaction_key a (next_seq s a))
        ≡ some h
  unfolding add_all
  added-kept s a h calls fits ok =
      let t = (add_transaction_to_address_index s a h).0 in
      let one : Fits s 1 = λ c. omega (arith, fits c) in
      let more : Fits t (length calls) = λ c. omega (arith, fits c, next_seq-add s a c h one) in
      let stored = add-stores s a h ok in
      let counted = next_seq-addr_seq t (reserve s a) a stored.1 in
      let value = next_seq-reserve s a a in
      let moved = rw (beq_refl a) at value in
      add_all-keeps calls t a (next_seq s a) more (omega (arith, counted, moved, one a)) ∙ stored.0

  -- After a restart on a database that holds another hash under number 0 of an address, the first
  -- call for the address, if it succeeds, replaces that hash by its own.
  pub new_pebble_storage-overwrites :
      (db : S) (a : Address) (old h : Bytes)
      → store.read db (address_transaction_key a 0) ≡ some old
      → old ≢ h
      → (add_transaction_to_address_index (new_pebble_storage db false) a h).1 ≡ none
      → (store.read
            (add_transaction_to_address_index (new_pebble_storage db false) a h).0.db
            (address_transaction_key a 0)
          ≡ some h)
        × (some h ≢ store.read db (address_transaction_key a 0))
  unfolding new_pebble_storage next_seq lookup
  new_pebble_storage-overwrites db a old h before differ ok =
      ((add-stores (new_pebble_storage db false) a h ok).0, λ e. differ (ground (arith, e, before)))
