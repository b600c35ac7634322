-- ===== src/Text/Concat.antt =====
-- Concatenations that are equal have equal parts where the first parts are equally long.
use indexer_go.Base.{◌≡◌, refl, [], ◌∷◌, ◌++◌, arith, length}
use indexer_go.Text.{Bytes}

pub append_cancel : (p s t : Bytes) → p ++ s ≡ p ++ t → s ≡ t
append_cancel [] s t e = e
append_cancel (c ∷ p) s t e = append_cancel p s t (ground arith)

pub append_injective : (a b s t : Bytes) → length a ≡ length b → a ++ s ≡ b ++ t → (a ≡ b) × (s ≡ t)
append_injective [] [] s t l e = (refl, e)
append_injective [] (y ∷ b) s t l e = absurd (omega arith)
append_injective (x ∷ a) [] s t l e = absurd (omega arith)
append_injective (x ∷ a) (y ∷ b) s t l e =
    let heads : x ≡ y = ground arith in
    let ih = append_injective a b s t (omega arith) (ground arith) in (ground arith, ih.1)
