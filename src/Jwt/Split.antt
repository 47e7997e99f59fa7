-- ===== src/Jwt/Split.antt =====
-- A text is split at the separator that joins its parts.
use libbrowserid.Prelude.{ℕ, ◌≡◌, refl, List, [], ◌∷◌, ◌++◌, All, some, true, false, ◌==◌, arith}
use libbrowserid.Base64.Ascii.{IsPlainText}
use libbrowserid.Jwt.{split_at}

pub split_at-append :
    (c : ℕ) (a b : List ℕ)
    → All (λ x. (x == c) ≡ false) a
    → (c == c) ≡ true
    → split_at c (a ++ (c ∷ b)) ≡ some (a, b)
unfolding split_at
split_at-append c [] b h r = rw r refl
split_at-append c (x ∷ a) b (h, hs) r = rw (h, split_at-append c a b hs r) refl

pub IsPlainText→no_dot : (s : List ℕ) → All IsPlainText s → All (λ x. (x == b'.') ≡ false) s
IsPlainText→no_dot [] h = tt
IsPlainText→no_dot (c ∷ s) ((p, q), ps) = (ground arith, IsPlainText→no_dot s ps)
