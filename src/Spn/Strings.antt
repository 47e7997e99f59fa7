-- ===== src/Spn/Strings.antt =====
-- `strcmp` tells whether two strings are the same.
use libbrowserid.Prelude.{ℕ, ◌≡◌, ◌↔◌, refl, List, [], ◌∷◌, true, arith}
use libbrowserid.Spn.{str_eq}

pub str_eq_iff : (s t : List ℕ) → (str_eq s t ≡ true) ↔ (s ≡ t)
str_eq_iff [] [] = ((λ h. refl), (λ h. refl))
str_eq_iff [] (y ∷ ys) = ((λ h. cc), (λ h. cc))
str_eq_iff (x ∷ xs) [] = ((λ h. cc), (λ h. cc))
str_eq_iff (x ∷ xs) (y ∷ ys) =
    let (f, g) = str_eq_iff xs ys in ((λ h. ground (arith, f)), (λ h. ground (arith, g)))
