-- ===== src/RpcProxy/Cache/Valid.antt =====
-- The map and the list of pkg/rpcproxy/cache.go agree, and stay within MaxSize.
use Prim.Native.String.{String}
use indexer_go.Base.{
  ℕ, suc, ◌+◌, ◌≤◌, ◌<◌, ◌≡◌, sym, ◌∙◌, inl, inr, true, false, List, [], ◌∷◌, some, arith, leb,
  if◌then◌else◌, Bool-cases, Option-cases, length,
}
use indexer_go.Base.Dict.{
  string_eq, has, remove, Distinct, lookup, keys, is_some, has-remove, remove-Distinct,
  length-remove, lookup-delete, has-keys, delete-Distinct, length-keys,
}
use indexer_go.RpcProxy.Cache.{Cache, back, remove_entry, move_to_front, evict_oldest, evict_loop}
use indexer_go.RpcProxy.Cache.Keys.{back-has, back_of_nonempty, length_of_same}

pub length-remove-le : (k : String) (ks : List String) → length (remove k ks) ≤ length ks
unfolding remove
length-remove-le k [] = omega arith
length-remove-le k (j ∷ ks) = ground (arith, length-remove-le k ks)

-- Each key of the map stands once in the list, no other does, and there are at most `n`.
pub record IsValid {V : Type 0} (n : ℕ) (c : Cache V) : Type 0 where
  pub distinct_items : Distinct (keys c.items)
  pub distinct_lru : Distinct c.lru
  pub agree : (k : String) → has k c.lru ≡ is_some (lookup k c.items)
  pub limit : c.max_size ≡ n
  pub bounded : length c.lru ≤ n

module _ {V : Type 0} (n : ℕ) (c : Cache V) (v : IsValid n c) where
  pub remove_entry-IsValid : (key : String) → IsValid n (remove_entry key c)
  unfolding remove_entry
  remove_entry-IsValid key = record {
    distinct_items = delete-Distinct key c.items v.distinct_items;
    distinct_lru = remove-Distinct key c.lru v.distinct_lru;
    agree = λ k. ground (
      arith,
      v.agree k,
      has-remove key k c.lru v.distinct_lru,
      lookup-delete key k c.items,
      string_eq.beq_iff key k,
      string_eq.beq_iff k key,
    );
    limit = v.limit;
    bounded = omega (arith, v.bounded, length-remove-le key c.lru);
  }

  pub move_to_front-IsValid :
      (key : String) → has key c.lru ≡ true → IsValid n (move_to_front key c)
  unfolding move_to_front has
  move_to_front-IsValid key h = record {
    distinct_items = v.distinct_items;
    distinct_lru = (
      ground (arith, has-remove key key c.lru v.distinct_lru, string_eq.beq_iff key key),
      remove-Distinct key c.lru v.distinct_lru,
    );
    agree = λ k. ground (
      arith,
      v.agree k,
      v.agree key,
      has-remove key k c.lru v.distinct_lru,
      string_eq.beq_iff key k,
      string_eq.beq_iff k key,
    );
    limit = v.limit;
    bounded = omega (arith, v.bounded, length-remove key c.lru h);
  }

  -- The map has as many entries as the list has keys.
  pub length-items : length c.items ≡ length c.lru
  length-items =
      sym (length-keys c.items)
      ∙ length_of_same (keys c.items) c.lru v.distinct_items v.distinct_lru
          λ k. has-keys k c.items ∙ sym (v.agree k)

  evict_oldest-IsValid : IsValid n (evict_oldest c)
  unfolding evict_oldest
  evict_oldest-IsValid = elim (Option-cases (back c.lru)) [
    | inl empty ↦ rw (empty, evict_oldest) v
    | inr (key, found) ↦
        let left = remove_entry-IsValid key in
        rw (found, evict_oldest)
          (record {
            distinct_items = left.distinct_items;
            distinct_lru = left.distinct_lru;
            agree = left.agree;
            limit = left.limit;
            bounded = left.bounded;
          })
  ]

  length-evict_oldest : 0 < length c.lru → length (evict_oldest c).lru + 1 ≡ length c.lru
  unfolding evict_oldest remove_entry
  length-evict_oldest h =
      let (key, found) = back_of_nonempty c.lru h in
      rw (found, evict_oldest) (omega (arith, length-remove key c.lru (back-has c.lru key found)))

-- The cache after the evictions of Set: one if it is full.
unfoldable pub with_room : {V : Type 0} → Cache V → Cache V
with_room c = if leb c.max_size (length c.lru) then evict_oldest c else c

module _ {V : Type 0} (n : ℕ) (c : Cache V) (v : IsValid n c) (positive : 0 < n) where
  -- The loop of Set ends after at most one eviction.
  pub evict_loop_lem :
      (fuel : ℕ)
      → (evict_loop (suc (suc fuel)) c ≡ some (with_room c))
        × IsValid n (with_room c)
        × (length (with_room c).lru < n)
  unfolding evict_loop with_room
  evict_loop_lem fuel = elim (Bool-cases (leb c.max_size (length c.lru))) [
    | inl full ↦
        let room = evict_oldest-IsValid n c v in
        let short = length-evict_oldest n c v (ground (arith, v.limit)) in
        let open_ : leb (evict_oldest c).max_size (length (evict_oldest c).lru) ≡ false =
          ground (arith, room.limit, v.bounded, short) in
        (rw (full, open_), rw full room, rw full (omega (arith, v.bounded, short)))
    | inr below ↦ (rw below, rw below v, rw below (ground (arith, v.limit)))
  ]
