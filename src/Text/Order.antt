-- ===== src/Text/Order.antt =====
-- The order of bytes.Compare, in which the store iterates.
use indexer_go.Base.{ℕ, ◌<◌, ◌≡◌, refl, true, false, [], ◌∷◌, ◌++◌, arith, length}
use indexer_go.Text.{Bytes, less}

-- A common prefix does not count.
pub less-append_left : (p a b : Bytes) → less (p ++ a) (p ++ b) ≡ less a b
unfolding less
less-append_left [] a b = refl
less-append_left (c ∷ p) a b = ground (arith, less-append_left p a b)

-- The first difference decides.
pub less-append_right :
    (a b s t : Bytes) → length a ≡ length b → less a b ≡ true → less (a ++ s) (b ++ t) ≡ true
unfolding less
less-append_right [] [] s t e h = absurd (ground arith)
less-append_right [] (y ∷ b) s t e h = absurd (omega arith)
less-append_right (x ∷ a) [] s t e h = absurd (omega arith)
less-append_right (x ∷ a) (y ∷ b) s t e h = ground (arith, less-append_right a b s t)

pub less_heads : (x y : ℕ) (a b : Bytes) → x < y → less (x ∷ a) (y ∷ b) ≡ true
unfolding less
less_heads x y a b h = ground arith

pub less_asym : (a b : Bytes) → less a b ≡ true → less b a ≡ false
unfolding less
less_asym [] [] h = refl
less_asym [] (y ∷ b) h = refl
less_asym (x ∷ a) [] h = absurd (ground arith)
less_asym (x ∷ a) (y ∷ b) h = ground (arith, less_asym a b)

pub less_irrefl : (a : Bytes) → less a a ≡ false
unfolding less
less_irrefl [] = refl
less_irrefl (x ∷ a) = ground (arith, less_irrefl a)
