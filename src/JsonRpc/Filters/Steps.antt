-- ===== src/JsonRpc/Filters/Steps.antt =====
-- One poll of a block filter with eth_getFilterChanges.
use indexer_go.Base.{
  ℕ, zero, suc, ◌+◌, ◌-◌, ◌≤◌, ◌<◌, ◌≡◌, refl, ap, ◌∙◌, List, [], ◌∷◌, Option, none, some, arith,
  if◌then◌else◌, Bool-cases, inl, inr, ◌⊎◌, leb,
}
use indexer_go.Base.Dict.{lookup, insert, lookup-insert}
use indexer_go.Text.{Bytes}
use indexer_go.Text.Equality.{bytes_eq, bytes_beq_refl}
use indexer_go.JsonRpc.Filters.{
  block_filter_type, Filter, FilterManager, Latest, BlockAnswer, changes, get_filter,
  update_last_poll_block, hashes_loop, hashes_since, since_height, collected, polled_at,
  get_block_hashes_since_last_poll, polled, block_filter_changes, with_filters,
}
use indexer_go.JsonRpc.Filters.Delivered.{Delivered}

abbrev pub received : Option (List Bytes) → List Bytes
received none = []
received (some hashes) = hashes

-- A block of the chain, no block, or an error.
abbrev pub Answers : (ℕ → Bytes) → ℕ → (ℕ → BlockAnswer) → Type 0
Answers chain h get_block =
    (x : ℕ)
    → x ≤ h
    → (get_block x ≡ BlockAnswer.block_hash (chain x))
      ⊎ (get_block x ≡ BlockAnswer.no_block)
      ⊎ (get_block x ≡ BlockAnswer.broken)

-- The latest height, where it is known, never falls, and the blocks up to it that are found are
-- those of the chain; either may also fail to be read. The store has no latest height only as long
-- as none was known but 0.
abbrev pub RisingAt : (ℕ → Bytes) → ℕ → (ℕ → BlockAnswer) → Latest → Type 0
RisingAt chain lo get_block Latest.failed = Unit
RisingAt chain lo get_block Latest.not_found = lo ≡ 0
RisingAt chain lo get_block (Latest.height h) = (lo ≤ h) × Answers chain h get_block

abbrev pub height_or : ℕ → Latest → ℕ
height_or lo Latest.failed = lo
height_or lo Latest.not_found = lo
height_or lo (Latest.height h) = h

module _ (chain : ℕ → Bytes) (get_block : ℕ → BlockAnswer) where
  abbrev pub Absent : ℕ → Type 0
  Absent x = get_block x ≡ BlockAnswer.no_block

  -- An error at some height, or the hashes of the heights that are found.
  hashes_loop-cases :
      (n left : ℕ)
      → ((x : ℕ)
          → n ≤ x
          → x < n + left
          → (get_block x ≡ BlockAnswer.block_hash (chain x))
            ⊎ (get_block x ≡ BlockAnswer.no_block)
            ⊎ (get_block x ≡ BlockAnswer.broken))
      → ((hashes_loop get_block left n ≡ none)
          × ((x : ℕ) × (n ≤ x) × (x < n + left) × (get_block x ≡ BlockAnswer.broken)))
        ⊎ ((hs : List Bytes) × (hashes_loop get_block left n ≡ some hs)
            × Delivered chain Absent n left hs)
  unfolding hashes_loop
  hashes_loop-cases n zero h = inr ([], refl, refl)
  hashes_loop-cases n (suc left) h =
      let ih =
        hashes_loop-cases (n + 1) left (λ x a l. h x (omega (arith, a)) (omega (arith, l))) in
      elim (h n (omega arith) (omega arith)) [
        | inr (inr e) ↦ inl (rw (e, hashes_loop) refl, (n, omega arith, omega arith, e))
        | inr (inl e) ↦ elim ih [
          | inl (i, (x, a, b, bad)) ↦
              inl (rw (e, i, hashes_loop) refl, (x, omega (arith, a), omega (arith, b), bad))
          | inr (hs, i, d) ↦ inr (hs, rw (e, i, hashes_loop) refl, inr (e, d))
        ]
        | inl e ↦ elim ih [
          | inl (i, (x, a, b, bad)) ↦
              inl (rw (e, i, hashes_loop) refl, (x, omega (arith, a), omega (arith, b), bad))
          | inr (hs, i, d) ↦ inr (chain n ∷ hs, rw (e, i, hashes_loop) refl, inl (hs, refl, d))
        ]
      ]

  module _ (last h : ℕ) (rise : last ≤ h) where
    hashes_since-loop :
        hashes_since get_block last h ≡ collected h (hashes_loop get_block (h - last) (last + 1))
    unfolding hashes_since hashes_loop
    hashes_since-loop = elim (Bool-cases (leb h last)) [
      | inl e ↦ let z : h - last ≡ 0 = ground arith in rw (e, z) refl
      | inr e ↦ rw e refl
    ]

-- The position of a filter after a poll that returned the hashes up to `h`.
abbrev pub at_height : ℕ → ℕ → Filter → Filter
at_height now h f = record f { last_poll_block = h; last_poll_at = now }

module _ (id : Bytes) (fm : FilterManager) (f : Filter)
    (there : lookup id fm.filters ≡ some f) where
  written : (g : Filter) (l : List (Bytes × Filter)) → lookup id (insert id g l) ≡ some g
  written g l =
      lookup-insert id id g l ∙ ap (λ b. if b then some g else lookup id l) (bytes_beq_refl id)

  get_filter_there :
      (now : ℕ)
      → get_filter now id fm
        ≡ (with_filters fm (insert id (polled_at now f) fm.filters), some (polled_at now f))
  unfolding get_filter
  get_filter_there now = rw there refl

  update_there :
      (now h : ℕ)
      → lookup id (update_last_poll_block now id h fm).filters ≡ some (at_height now h f)
  unfolding update_last_poll_block
  update_there now h = rw there (written (at_height now h f) fm.filters)

module _ (id : Bytes) (fm : FilterManager) (f : Filter) (there : lookup id fm.filters ≡ some f)
    (kind : f.filter_type ≡ block_filter_type) (now : ℕ) (latest : Latest)
    (get_block : ℕ → BlockAnswer) where
  changes-polled :
      (m : FilterManager) × (lookup id m.filters ≡ some (polled_at now f))
      × (block_filter_changes now id latest get_block fm
          ≡ polled now id (m, since_height get_block f.last_poll_block latest))
  unfolding block_filter_changes get_block_hashes_since_last_poll
  changes-polled =
      let f1 = polled_at now f in
      let fm1 = with_filters fm (insert id f1 fm.filters) in
      let there1 = written id fm f there f1 fm.filters in
      (
        with_filters fm1 (insert id f1 fm1.filters),
        written id fm f there f1 fm1.filters,
        rw
            (
              block_filter_changes,
              get_filter_there id fm f there now,
              get_filter_there id fm f there now,
              get_block_hashes_since_last_poll,
              get_filter_there id fm1 f1 there1 now,
              kind,
            )
            refl,
      )

-- What one poll does to the filter `f`, whose position is at most `lo`: the filter is there with
-- a position up to `hi`, and the hashes between the two positions were returned, but for heights
-- without a block.
abbrev pub Advances :
    (ℕ → Bytes)
    → (ℕ → Type 0)
    → Bytes
    → Filter
    → ℕ
    → FilterManager × Option (List Bytes)
    → Filter
    → Type 0
Advances chain Missed id f hi r g =
    (lookup id r.0.filters ≡ some g)
    × (g.filter_type ≡ block_filter_type)
    × (f.last_poll_block ≤ g.last_poll_block)
    × (g.last_poll_block ≤ hi)
    × Delivered chain Missed (f.last_poll_block + 1) (g.last_poll_block - f.last_poll_block)
        (received r.1)

module _ (chain : ℕ → Bytes) (Missed : ℕ → Type 0) (id : Bytes) (f : Filter)
    (kind : f.filter_type ≡ block_filter_type) (now : ℕ) where
  none-Advances :
      (hi : ℕ) (m : FilterManager)
      → f.last_poll_block ≤ hi
      → lookup id m.filters ≡ some (polled_at now f)
      → Advances chain Missed id f hi (m, none) (polled_at now f)
  none-Advances hi m h there =
      let z : f.last_poll_block - f.last_poll_block ≡ 0 = omega arith in
      (there, kind, omega arith, h, rw z refl)

  some-Advances :
      (h : ℕ) (m : FilterManager) (hs : List Bytes)
      → f.last_poll_block ≤ h
      → lookup id m.filters ≡ some (polled_at now f)
      → Delivered chain Missed (f.last_poll_block + 1) (h - f.last_poll_block) hs
      → Advances chain Missed id f h (polled now id (m, changes hs h)) (at_height now h f)
  some-Advances h m hs l there d =
      (update_there id m (polled_at now f) there now h, kind, l, omega arith, d)

module _ (chain : ℕ → Bytes) (id : Bytes) (fm : FilterManager) (f : Filter)
    (there : lookup id fm.filters ≡ some f) (kind : f.filter_type ≡ block_filter_type) (now : ℕ)
    (get_block : ℕ → BlockAnswer) where
  -- A poll that finds the height `h`.
  reaching-Advances :
      (latest : Latest) (h : ℕ)
      → since_height get_block f.last_poll_block latest ≡ hashes_since get_block f.last_poll_block h
      → f.last_poll_block ≤ h
      → ((x : ℕ)
          → f.last_poll_block + 1 ≤ x
          → x < f.last_poll_block + 1 + (h - f.last_poll_block)
          → (get_block x ≡ BlockAnswer.block_hash (chain x))
            ⊎ (get_block x ≡ BlockAnswer.no_block)
            ⊎ (get_block x ≡ BlockAnswer.broken))
      → (g : Filter) × Advances chain
          (Absent chain get_block)
          id
          f
          h
          (block_filter_changes now id latest get_block fm)
          g
  reaching-Advances latest h asked below answers =
      let Missing = Absent chain get_block in
      let (m, t, e) = changes-polled id fm f there kind now latest get_block in
      let all = hashes_since-loop chain get_block f.last_poll_block h below in
      elim (hashes_loop-cases chain get_block (f.last_poll_block + 1) (h - f.last_poll_block)
        answers) [
          | inl (i, _) ↦ (
            polled_at now f,
            rw (e, asked, all, i) (none-Advances chain Missing id f kind now h m below t),
          )
          | inr (hs, i, d) ↦ (
            at_height now h f,
            rw (e, asked, all, i) (some-Advances chain Missing id f kind now h m hs below t d),
          )
        ]

  pub poll-Advances :
      (latest : Latest) (lo : ℕ)
      → f.last_poll_block ≤ lo
      → RisingAt chain lo get_block latest
      → (g : Filter) × Advances chain
          (Absent chain get_block)
          id
          f
          (height_or lo latest)
          (block_filter_changes now id latest get_block fm)
          g
  poll-Advances Latest.not_found lo l r = rw r (
      reaching-Advances Latest.not_found 0 refl (omega (arith, l, r))
        (λ x a b. absurd (omega (arith, a, b))))
  poll-Advances Latest.failed lo l r =
      let (m, t, e) = changes-polled id fm f there kind now Latest.failed get_block in
      (polled_at now f, rw e (none-Advances chain (Absent chain get_block) id f kind now lo m l t))
  poll-Advances (Latest.height h) lo l r =
      reaching-Advances (Latest.height h) h refl (omega (arith, r.0, l))
        (λ x a b. r.1 x (omega (arith, a, b)))

  pub whole_poll :
      (h : ℕ)
      → f.last_poll_block ≤ h
      → ((x : ℕ)
          → x ≤ h
          → (get_block x ≡ BlockAnswer.block_hash (chain x)) ⊎ (get_block x ≡ BlockAnswer.no_block))
      → Delivered chain
          (Absent chain get_block)
          (f.last_poll_block + 1)
          (h - f.last_poll_block)
          (received (block_filter_changes now id (Latest.height h) get_block fm).1)
  whole_poll h below found =
      let (m, t, e) = changes-polled id fm f there kind now (Latest.height h) get_block in
      let all = hashes_since-loop chain get_block f.last_poll_block h below in
      let cases =
        hashes_loop-cases chain get_block (f.last_poll_block + 1) (h - f.last_poll_block)
          (λ x a b. elim (found x (omega (arith, a, b))) [ inl q ↦ inl q | inr q ↦ inr (inl q) ]) in
      elim cases [
        | inr (hs, i, d) ↦ rw (e, all, i) d
        | inl (i, (x, a, b, bad)) ↦ elim (found x (omega (arith, a, b))) [
          | inl q ↦ absurd (ground (arith, q, bad))
          | inr q ↦ absurd (ground (arith, q, bad))
        ]
      ]
