-- ===== src/JsonRpc/Filters.antt =====
-- FilterManager of pkg/api/jsonrpc/filter_manager.go, and eth_getFilterChanges of
-- methods_filter.go for block filters. The lock makes each method one step; the clock readings
-- are arguments. The text of a hash, go-ethereum's Hash.Hex, is a parameter. What the store
-- answers for the latest height and for a block is an argument, and heights are below 2 ^ 64 - 1.
pub mod Ids
pub mod Delivered
pub mod Steps
pub mod Polls
use indexer_go.Base.{
  ℕ, zero, suc, ◌+◌, ◌-◌, ◌%◌, Bool, true, false, List, [], ◌∷◌, ◌++◌, Option, none, some, ltb, leb,
  if◌then◌else◌, length, replicate,
}
use indexer_go.Base.Dict.{lookup, insert, delete}
use indexer_go.Text.{Bytes, uint64_limit}
use indexer_go.Text.Equality.{bytes_eq}

pub data FilterType : Type 0 where
  log_filter_type block_filter_type pending_tx_filter_type : FilterType

pub record LogFilter : Type 0 where
  pub from_block : ℕ
  pub to_block : ℕ
  pub addresses : List Bytes
  pub topics : List (List Bytes)

pub record Filter : Type 0 where
  pub id : Bytes
  pub filter_type : FilterType
  pub log_filter : Option LogFilter
  pub last_poll_block : ℕ
  pub last_pending_tx_index : ℕ
  pub created_at : ℕ
  pub last_poll_at : ℕ
  pub decode : Bool

pub record FilterManager : Type 0 where
  pub filters : List (Bytes × Filter)
  pub next_id : ℕ
  pub timeout : ℕ

unfoldable pub new_filter_manager : ℕ → FilterManager
new_filter_manager timeout = record { filters = []; next_id = 1; timeout = timeout }

-- The latest height: an error, no height yet, or a height.
pub data Latest : Type 0 where
  failed : Latest
  not_found : Latest
  height : ℕ → Latest

-- A block's hash, no block, or an error.
pub data BlockAnswer : Type 0 where
  block_hash : Bytes → BlockAnswer
  no_block : BlockAnswer
  broken : BlockAnswer

-- The answer to a poll: hashes with the height, or the store's error.
pub data Changes : Type 0 where
  changes : List Bytes → ℕ → Changes
  error : Changes

-- Where a filter starts among the pending transactions.
abbrev pub first_index : FilterType → Option ℕ → ℕ
first_index pending_tx_filter_type (some index) = index
first_index _ _ = 0

module _ (to_hex : Bytes → Bytes) where
  -- The identifier is made from the low byte of the counter.
  unfoldable pub id_of : ℕ → Bytes
  id_of n = to_hex (replicate 31 0 ++ n % 256 ∷ [])

  -- The filter that a call makes; `pending` is the pool's current index, where there is a pool.
  unfoldable pub made : ℕ → ℕ → FilterType → Option LogFilter → ℕ → Bool → Option ℕ → Filter
  unfolding id_of
  made now n filter_type log_filter last_block decode pending = record {
    id = id_of n;
    filter_type = filter_type;
    log_filter = log_filter;
    last_poll_block = last_block;
    last_pending_tx_index = first_index filter_type pending;
    created_at = now;
    last_poll_at = now;
    decode = decode;
  }

  unfoldable pub new_filter :
      ℕ
      → FilterType
      → Option LogFilter
      → ℕ
      → Bool
      → Option ℕ
      → FilterManager
      → FilterManager × Bytes
  unfolding made insert
  new_filter now filter_type log_filter last_block decode pending fm =
      let filter = made now fm.next_id filter_type log_filter last_block decode pending in
      (
        record {
          filters = insert filter.id filter fm.filters;
          next_id = (fm.next_id + 1) % uint64_limit;
          timeout = fm.timeout;
        },
        filter.id,
      )

abbrev pub with_filters : FilterManager → List (Bytes × Filter) → FilterManager
with_filters fm filters = record { filters = filters; next_id = fm.next_id; timeout = fm.timeout }

abbrev pub polled_at : ℕ → Filter → Filter
polled_at now f = record f { last_poll_at = now }

abbrev pub touched : ℕ → Bytes → FilterManager → Option Filter → FilterManager × Option Filter
touched now id fm none = (fm, none)
touched now id fm (some f) =
    (with_filters fm (insert id (polled_at now f) fm.filters), some (polled_at now f))

unfoldable pub get_filter : ℕ → Bytes → FilterManager → FilterManager × Option Filter
unfolding lookup insert
get_filter now id fm = touched now id fm (lookup id fm.filters)

abbrev pub moved : ℕ → Bytes → ℕ → FilterManager → Option Filter → FilterManager
moved now id block fm none = fm
moved now id block fm (some f) =
    with_filters fm
      (insert id (record f { last_poll_block = block; last_poll_at = now }) fm.filters)

unfoldable pub update_last_poll_block : ℕ → Bytes → ℕ → FilterManager → FilterManager
unfolding lookup insert
update_last_poll_block now id block fm = moved now id block fm (lookup id fm.filters)

abbrev dropped : Bytes → FilterManager → Option Filter → FilterManager × Bool
dropped id fm none = (fm, false)
dropped id fm (some f) = (with_filters fm (delete id fm.filters), true)

unfoldable pub remove_filter : Bytes → FilterManager → FilterManager × Bool
unfolding lookup delete
remove_filter id fm = dropped id fm (lookup id fm.filters)

unfoldable pub filter_count : FilterManager → ℕ
filter_count fm = length fm.filters

-- Only the filters that were polled within the timeout.
unfoldable pub live : ℕ → ℕ → List (Bytes × Filter) → List (Bytes × Filter)
live now timeout [] = []
live now timeout ((k, f) ∷ rest) =
    let kept = live now timeout rest in
    if ltb (f.last_poll_at + timeout) now then kept else (k, f) ∷ kept

unfoldable pub cleanup : ℕ → FilterManager → FilterManager
unfolding live
cleanup now fm = with_filters fm (live now fm.timeout fm.filters)

-- The hashes of `left` heights from `n` on; a height without a block is skipped.
unfoldable pub hashes_loop : (ℕ → BlockAnswer) → ℕ → ℕ → Option (List Bytes)
hashes_loop get_block zero n = some []
hashes_loop get_block (suc left) n = elim (get_block n) [
  | broken ↦ none
  | no_block ↦ hashes_loop get_block left (n + 1)
  | block_hash h ↦ elim (hashes_loop get_block left (n + 1)) [
    | none ↦ none
    | some hs ↦ some (h ∷ hs)
  ]
]

abbrev pub collected : ℕ → Option (List Bytes) → Changes
collected current none = error
collected current (some hashes) = changes hashes current

-- The blocks after the last poll, up to the current height.
unfoldable pub hashes_since : (ℕ → BlockAnswer) → ℕ → ℕ → Changes
unfolding hashes_loop
hashes_since get_block last current =
    if leb current last
    then changes [] current
    else collected current (hashes_loop get_block (current - last) (last + 1))

abbrev pub since_height : (ℕ → BlockAnswer) → ℕ → Latest → Changes
since_height get_block last failed = error
since_height get_block last not_found = hashes_since get_block last 0
since_height get_block last (height h) = hashes_since get_block last h

abbrev pub since_filter : (ℕ → BlockAnswer) → Latest → Option Filter → Changes
since_filter get_block latest none = changes [] 0
since_filter get_block latest (some f) = elim f.filter_type [
  | block_filter_type ↦ since_height get_block f.last_poll_block latest
  | _ ↦ changes [] 0
]

unfoldable pub get_block_hashes_since_last_poll :
    ℕ → Bytes → Latest → (ℕ → BlockAnswer) → FilterManager → FilterManager × Changes
unfolding get_filter hashes_since
get_block_hashes_since_last_poll now id latest get_block fm =
    let (fm', found) = get_filter now id fm in (fm', since_filter get_block latest found)

-- What the handler answers for a block filter: `none` is an error, also for a missing filter.
abbrev pub polled : ℕ → Bytes → FilterManager × Changes → FilterManager × Option (List Bytes)
polled now id (fm, error) = (fm, none)
polled now id (fm, changes hashes current) = (update_last_poll_block now id current fm, some hashes)

unfoldable pub block_filter_changes :
    ℕ → Bytes → Latest → (ℕ → BlockAnswer) → FilterManager → FilterManager × Option (List Bytes)
unfolding get_filter get_block_hashes_since_last_poll update_last_poll_block
block_filter_changes now id latest get_block fm =
    let (fm', found) = get_filter now id fm in
    elim found [
      | none ↦ (fm', none)
      | some f ↦ polled now id (get_block_hashes_since_last_poll now id latest get_block fm')
    ]
