-- ===== src/Storage/Store.antt =====
-- The key-value store under pkg/storage, which is cockroachdb/pebble. A write may fail, which is
-- `none`; a write that succeeds changes the value of its own key and of no other.
use indexer_go.Base.{◌≡◌, ◌≢◌, Option, some}
use indexer_go.Text.{Bytes}

pub record Store (S : Type 0) : Type 0 where
  pub read : S → Bytes → Option Bytes
  pub write : S → Bytes → Bytes → Option S
  pub read-write_self : (s t : S) (k v : Bytes) → write s k v ≡ some t → read t k ≡ some v
  pub read-write_ne : (s t : S) (k j v : Bytes) → write s k v ≡ some t → j ≢ k → read t j ≡ read s j
