-- ===== src/Base64/Ascii.antt =====
-- What the encoder writes is ASCII text.
use mathlib.Core.Path.{subst}
use libbrowserid.Prelude.{
  ℕ, ◌-◌, refl, ◌<◌, ◌^◌, ◌≡◌, Bool, true, false, List, [], ◌∷◌, length, All, arith, ◌==◌, ltb,
  if◌then◌else◌, Bool-cases, inl, inr,
}
use libbrowserid.Status.{good, bad, buffer_too_long}
use libbrowserid.Base64.{char_at, pad, encode_loop, c_string, base64_encode, base64_url_encode}
use libbrowserid.Base64.Chars.{in_text, char_at-IsCode}

record IsLow (c : ℕ) : Type 0 where
  held : in_text c ≡ true

-- What the text of an encoding consists of.
abbrev pub IsPlainText : ℕ → Type 0
IsPlainText c = (0 < c) × (in_text c ≡ true)

char_at-IsLow : (url : Bool) (c shift : ℕ) → IsLow (char_at url c shift)
char_at-IsLow url c shift = record { held = (char_at-IsCode url c shift).ascii }

pad-IsLow : (url : Bool) → IsLow (pad url)
pad-IsLow true = record { held = refl }
pad-IsLow false = record { held = refl }

group :
    (a b c d : ℕ) (cs : List ℕ)
    → IsLow a
    → IsLow b
    → IsLow c
    → IsLow d
    → All IsLow cs
    → All IsLow (a ∷ b ∷ c ∷ d ∷ cs)
group a b c d cs p q r s rest = (p, (q, (r, (s, rest))))

encode_loop-All : (url : Bool) (bytes : List ℕ) → All IsLow (encode_loop url bytes)
unfolding encode_loop
encode_loop-All url [] = tt
encode_loop-All url (a ∷ []) =
    group _ _ _ _ [] (char_at-IsLow url _ 18) (char_at-IsLow url _ 12) (pad-IsLow url)
      (char_at-IsLow url _ 0) tt
encode_loop-All url (a ∷ b ∷ []) =
    group _ _ _ _ [] (char_at-IsLow url _ 18) (char_at-IsLow url _ 12) (char_at-IsLow url _ 6)
      (pad-IsLow url) tt
encode_loop-All url (a ∷ b ∷ d ∷ q) =
    group _ _ _ _ _ (char_at-IsLow url _ 18) (char_at-IsLow url _ 12) (char_at-IsLow url _ 6)
      (char_at-IsLow url _ 0) (encode_loop-All url q)

c_string-All : (cs : List ℕ) → All IsLow cs → All IsPlainText (c_string cs)
unfolding c_string
c_string-All [] h = tt
c_string-All (c ∷ cs) (l, ls) = elim (Bool-cases (c == 0)) [
  | inl e ↦ rw e tt
  | inr e ↦ rw e ((ground arith, l.held), c_string-All cs ls)
]

pub url_encode-All : (bytes s : List ℕ) → base64_url_encode bytes ≡ good s → All IsPlainText s
unfolding base64_url_encode base64_encode
url_encode-All bytes s e = from (ltb (2 ^ 30 - 1) (length bytes)) e
  where
    from :
        (long : Bool)
        → (if long then bad buffer_too_long else good (c_string (encode_loop true bytes))) ≡ good s
        → All IsPlainText s
    from true k = cc
    from false k =
        let same : c_string (encode_loop true bytes) ≡ s = cc in
        subst (All IsPlainText) same (c_string-All _ (encode_loop-All true bytes))

IsPlainText→ascii : (s : List ℕ) → All IsPlainText s → All (λ c. (0 < c) × (c < 2 ^ 7)) s
IsPlainText→ascii [] h = tt
IsPlainText→ascii (c ∷ s) ((p, q), ps) = ((p, ground arith), IsPlainText→ascii s ps)

pub url_encode-ascii :
    (bytes s : List ℕ) → base64_url_encode bytes ≡ good s → All (λ c. (0 < c) × (c < 2 ^ 7)) s
url_encode-ascii bytes s e = IsPlainText→ascii s (url_encode-All bytes s e)

-- A character of a C string.
abbrev pub IsCharacter : ℕ → Type 0
IsCharacter c = (0 < c) × (c < 256)

pub c_string_self : (s : List ℕ) → All IsCharacter s → c_string s ≡ s
unfolding c_string
c_string_self [] h = refl
c_string_self (c ∷ s) ((p, q), ps) =
    let e : (c == 0) ≡ false = ground arith in rw (e, c_string_self s ps) refl
