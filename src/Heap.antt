-- ===== src/Heap.antt =====
-- container/heap of the Go standard library, which pkg/rpcproxy/queue.go calls: the operations over
-- heap.Interface, whose Less is a field and whose Len, Swap, Push and Pop are those of a slice.
-- `none` is an index out of range, or fuel that ran out; the theorems show that neither happens.
pub mod Order
pub mod Up
pub mod Down
pub mod Ends
use indexer_go.Base.{
  ℕ, zero, suc, ◌+◌, ◌-◌, ◌*◌, ◌/◌, ◌≡◌, Bool, true, false, List, [], ◌∷◌, ◌++◌, Option, none, some,
  ◌>>=◌, ltb, leb, ◌==◌, if◌then◌else◌, not, get_elem?, length, take,
}
use indexer_go.Base.Slice.{swap}

-- The ordering behind Less: a strict weak order.
pub record Less {ℓ} (A : Type ℓ) : Type ℓ where
  pub less : A → A → Bool
  pub asym : (a b : A) → less a b ≡ true → less b a ≡ false
  pub trans : (a b c : A) → less b a ≡ false → less c b ≡ false → less c a ≡ false

abbrev pub parent : ℕ → ℕ
parent c = (c - 1) / 2

module _ {ℓ} {A : Type ℓ} (o : Less A) where
  -- h.Less(i, j)
  unfoldable pub less_at : List A → ℕ → ℕ → Option Bool
  less_at a i j = do x ← get_elem? a i; y ← get_elem? a j; some (o.less x y)

  unfoldable pub up_loop : ℕ → List A → ℕ → Option (List A)
  up_loop zero a j = none
  up_loop (suc fuel) a j =
      let i = parent j in
      let rise = swap a i j >>= λ b. up_loop fuel b i in
      let step = less_at a j i >>= λ below. if below then rise else some a in
      if i == j then some a else step

  unfoldable pub up : List A → ℕ → Option (List A)
  unfolding up_loop less_at swap
  up a j = up_loop (suc j) a j

  -- The child that down compares with: the right one if it exists and is less than the left one.
  unfoldable pub lesser_child : List A → ℕ → ℕ → Option ℕ
  lesser_child a n left =
      let right = left + 1 in
      if ltb right n
      then (do below ← less_at a right left; some (if below then right else left))
      else some left

  unfoldable pub down_loop : ℕ → List A → ℕ → ℕ → Option (List A)
  down_loop zero a i n = none
  down_loop (suc fuel) a i n =
      let sink = λ (j : ℕ). swap a i j >>= λ b. down_loop fuel b j n in
      let step : Option (List A) = do
        j ← lesser_child a n (2 * i + 1)
        below ← less_at a j i
        if below then sink j else some a
      in if leb n (2 * i + 1) then some a else step

  unfoldable pub down : List A → ℕ → ℕ → Option (List A)
  unfolding down_loop lesser_child less_at swap
  down a i n = down_loop (suc n) a i n

  -- heap.Push
  unfoldable pub push : List A → A → Option (List A)
  unfolding up
  push a x = up (a ++ x ∷ []) (length (a ++ x ∷ []) - 1)

  -- heap.Pop: the element that h.Pop() takes from the end, and the rest.
  unfoldable pub pop : List A → Option (A × List A)
  unfolding down swap
  pop a = do
    let n = length a - 1
    b ← swap a 0 n
    c ← down b 0 n
    x ← get_elem? c n
    some (x, take n c)
