-- ===== src/Fetch/Concurrent/Assembled.antt =====
-- The interface of gap filling, made of the models of FetchBlock and FetchRangeConcurrent of
-- pkg/fetch/fetcher.go.
use indexer_go.Base.{
  ℕ, ◌+◌, ◌-◌, ◌≤◌, ◌<◌, ◌≡◌, ap, ◌∙◌, sym, Bool, true, false, List, some, arith, if◌then◌else◌,
  inl, inr, Bool-cases,
}
use indexer_go.Fetch.Block.{Effects, Node, fetch_block}
use indexer_go.Fetch.Block.Stores.{
  Laws, There, index_block-keeps, index_block-stores, index_block-latest,
}
use indexer_go.Text.{uint64_limit}
use indexer_go.Base.Dict.{nat_eq, has}
use indexer_go.Base.{none, Option, ◌&&◌, ◌<◌, ◌⊎◌, refl, leb, ltb, All}
use indexer_go.Fetch.Concurrent.{fetch_range_concurrent}
use indexer_go.Fetch.Concurrent.Order.{fetch_range_concurrent-order}
use indexer_go.Fetch.Concurrent.Flush.{store_in_order, arriving}
use indexer_go.Fetch.Fill.{Fetcher}
use indexer_go.Fetch.Concurrent.Stores.{store_in_order-stores, store_in_order-keeps, fetched_block}

-- The workers' results for a range come in the order `order`, all of them.
module _ {S Block Receipt : Type 0} (e : Effects S Block Receipt) (k : Laws e)
    (node : Node Block Receipt) (max_retries : ℕ)
    (numbered : (h attempt : ℕ) (b : Block) → node.get_block h attempt ≡ some b → k.number b ≡ h)
    (answers : ℕ → Block × List Receipt) (named : (x : ℕ) → k.number (answers x).0 ≡ x)
    (order : ℕ → ℕ → List ℕ) (within : (first last : ℕ) → All (λ h. h ≤ last) (order first last))
    (complete : (first last x : ℕ) → first ≤ x → x ≤ last → has x (order first last) ≡ true) where
  abbrev in_range : ℕ → ℕ → Bool
  in_range first last = leb first last && ltb (last + 1) uint64_limit

  abbrev or_failed : S → Option (S × Bool) → S × Bool
  or_failed s none = (s, false)
  or_failed s (some r) = r

  -- FetchRangeConcurrent for a range that is not empty and ends below 2 ^ 64 - 1; for any other
  -- one the model here fails.
  unfoldable pub concurrently : S → ℕ → ℕ → S × Bool
  unfolding fetch_range_concurrent
  concurrently s first last =
      if in_range first last
      then or_failed s (
          fetch_range_concurrent e (last + 2 - first) false first last
            (arriving e answers (order first last)) s)
      else (s, false)

  concurrently-cases :
      (s : S) (first last : ℕ)
      → (concurrently s first last ≡ store_in_order e answers (last + 1 - first) first s)
        ⊎ (concurrently s first last ≡ (s, false))
  unfolding concurrently
  concurrently-cases s first last = elim (Bool-cases (in_range first last)) [
    | inr out ↦ inr (rw (out, concurrently) refl)
    | inl inside ↦
        let l : first ≤ last = ground (arith, inside) in
        let room : last + 1 < uint64_limit = ground (arith, inside) in
        let run =
          fetch_range_concurrent-order e answers (last + 2 - first) first last (order first last) s
            room l (omega (arith, l)) (within first last) (complete first last) in
        inl (rw (inside, concurrently, run) refl)
  ]

  pub concurrently-stores :
      (s : S) (first last x : ℕ)
      → (concurrently s first last).1 ≡ true
      → first ≤ x
      → x ≤ last
      → There e k x (concurrently s first last).0
  concurrently-stores s first last x ok a b = elim (concurrently-cases s first last) [
    | inr out ↦ absurd (ground (arith, ok, out))
    | inl same ↦ rw same (
        store_in_order-stores e k answers named x (last + 1 - first) first s
          (sym (ap (λ (r : S × Bool). r.1) same) ∙ ok) a (omega (arith, a, b)))
  ]

  pub concurrently-keeps :
      (s : S) (first last y : ℕ) → There e k y s → There e k y (concurrently s first last).0
  concurrently-keeps s first last y p = elim (concurrently-cases s first last) [
    | inr out ↦ rw out p
    | inl same ↦ rw same (store_in_order-keeps e k answers named y (last + 1 - first) first s p)
  ]

  abbrev pub fetcher : Fetcher S
  fetcher = record {
    stored = k.stored;
    latest = k.latest;
    fetch_block = λ s x. fetch_block e node max_retries x s;
    fetch_range_concurrent = concurrently;
    fetch_block-stores = λ s x.
        fetched_block e k node max_retries numbered (λ r. r.1 ≡ true → There e k x r.0) x s
          (λ ok. absurd (ground (arith, ok))) (λ b rs n. index_block-stores e k x x b rs s n);
    fetch_block-latest = λ s x.
        fetched_block e k node max_retries numbered (λ r. r.1 ≡ true → k.latest r.0 ≡ some x) x s
          (λ ok. absurd (ground (arith, ok))) (λ b rs n. index_block-latest e k x x b rs s);
    fetch_block-keeps = λ s x y p.
        fetched_block e k node max_retries numbered (λ r. There e k y r.0) x s p
          (λ b rs n. index_block-keeps e k y x b rs s p);
    fetch_range_concurrent-stores = concurrently-stores;
    fetch_range_concurrent-keeps = concurrently-keeps;
  }
