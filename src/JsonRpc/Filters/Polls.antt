-- ===== src/JsonRpc/Filters/Polls.antt =====
-- What a client receives that polls a block filter with eth_getFilterChanges again and again.
use indexer_go.Base.{ℕ, ◌⊎◌, List, [], ◌∷◌, ◌++◌}
use indexer_go.Text.{Bytes}
use indexer_go.Text.Equality.{bytes_eq}
use indexer_go.JsonRpc.Filters.{FilterManager, Latest, BlockAnswer, block_filter_changes}
use indexer_go.JsonRpc.Filters.Delivered.{Delivered}
use indexer_go.JsonRpc.Filters.Steps.{received, RisingAt, height_or, Absent}

-- One poll: the clock, and what the store answers at that time.
pub record Poll : Type 0 where
  pub now : ℕ
  pub latest : Latest
  pub get_block : ℕ → BlockAnswer

-- The manager after the polls, and all the hashes that they returned, in order.
abbrev pub polls : Bytes → List Poll → FilterManager → FilterManager × List Bytes
polls id [] fm = (fm, [])
polls id (p ∷ ps) fm =
    let (fm', answer) = block_filter_changes p.now id p.latest p.get_block fm in
    let (last, rest) = polls id ps fm' in (last, received answer ++ rest)

abbrev pub Rising : (ℕ → Bytes) → ℕ → List Poll → Type 0
Rising chain lo [] = Unit
Rising chain lo (p ∷ ps) =
    RisingAt chain lo p.get_block p.latest × Rising chain (height_or lo p.latest) ps

-- The height that was known last.
abbrev pub top : ℕ → List Poll → ℕ
top lo [] = lo
top lo (p ∷ ps) = top (height_or lo p.latest) ps

-- Some poll found no block at the height `x`.
abbrev pub Missed : (ℕ → Bytes) → List Poll → ℕ → Type 0
Missed chain [] x = ⊥
Missed chain (p ∷ ps) x = Absent chain p.get_block x ⊎ Missed chain ps x
