-- ===== src/Base64/Encoding.antt =====
-- The string that the encoder of bid_base64.c leaves, and one round of the decoder.
use libbrowserid.Prelude.{
  ℕ, suc, ◌+◌, ◌-◌, ◌*◌, ◌<◌, ◌≤◌, ◌≡◌, refl, ap, Bool, true, false, List, [], ◌∷◌, ◌++◌, none,
  some, ltb, ◌==◌, if◌then◌else◌, length, drop, arith,
}
use libbrowserid.Status.{invalid_base64}
use libbrowserid.Base64.{
  char_at, token_decode, token_bytes, encode_loop, c_string, decode_loop, failed,
}
use libbrowserid.Base64.Chars.{char_at-IsCode}

-- The string that the encoder leaves: its groups, without the NULs that end it.
abbrev pub encoding : Bool → List ℕ → List ℕ
encoding url [] = []
encoding true (a ∷ []) = let c = a * 256 * 256 in char_at true c 18 ∷ char_at true c 12 ∷ []
encoding false (a ∷ []) =
    let c = a * 256 * 256 in char_at false c 18 ∷ char_at false c 12 ∷ b'=' ∷ char_at false c 0 ∷ []
encoding url (a ∷ b ∷ []) =
    let c = (a * 256 + b) * 256 in
    char_at url c 18 ∷ char_at url c 12 ∷ char_at url c 6 ∷ (if url then [] else b'=' ∷ [])
encoding url (a ∷ b ∷ d ∷ q) =
    let c = (a * 256 + b) * 256 + d in
    char_at url c 18 ∷ char_at url c 12 ∷ char_at url c 6 ∷ char_at url c 0 ∷ encoding url q

c_string-nil : c_string [] ≡ []
unfolding c_string
c_string-nil = refl

c_string-nul : (t : List ℕ) → c_string (0 ∷ t) ≡ []
unfolding c_string
c_string-nul t = refl

c_string-pad : (t : List ℕ) {t' : List ℕ} → c_string t ≡ t' → c_string (b'=' ∷ t) ≡ b'=' ∷ t'
unfolding c_string
c_string-pad t e = ap (◌∷◌ b'=') e

kept :
    (url : Bool) (c shift : ℕ) (t : List ℕ) {t' : List ℕ}
    → c_string t ≡ t'
    → c_string (char_at url c shift ∷ t) ≡ char_at url c shift ∷ t'
unfolding c_string
kept url c shift t e = rw ((char_at-IsCode url c shift).not_nul, e)

-- Cut at its first NUL, the buffer of the encoder is the encoding.
pub c_string-encode :
    (url : Bool) (bytes : List ℕ) → c_string (encode_loop url bytes) ≡ encoding url bytes
unfolding encode_loop
c_string-encode true [] = c_string-nil
c_string-encode false [] = c_string-nil
c_string-encode true (a ∷ []) =
    kept true (a * 256 * 256) 18 _
      (kept true (a * 256 * 256) 12 _ (c_string-nul (char_at true (a * 256 * 256) 0 ∷ [])))
c_string-encode false (a ∷ []) =
    kept false (a * 256 * 256) 18 _ (
      kept false (a * 256 * 256) 12 _
        (c_string-pad _ (kept false (a * 256 * 256) 0 _ c_string-nil)))
c_string-encode true (a ∷ b ∷ []) =
    kept true ((a * 256 + b) * 256) 18 _
      (kept true ((a * 256 + b) * 256) 12 _ (kept true ((a * 256 + b) * 256) 6 _ (c_string-nul [])))
c_string-encode false (a ∷ b ∷ []) = kept false ((a * 256 + b) * 256) 18 _ (
    kept false ((a * 256 + b) * 256) 12 _
      (kept false ((a * 256 + b) * 256) 6 _ (c_string-pad _ c_string-nil)))
c_string-encode url (a ∷ b ∷ d ∷ q) = kept url ((a * 256 + b) * 256 + d) 18 _ (
    kept url ((a * 256 + b) * 256 + d) 12 _ (
      kept url ((a * 256 + b) * 256 + d) 6 _
        (kept url ((a * 256 + b) * 256 + d) 0 _ (c_string-encode url q))))

-- One round of the decoder.
pub decode_step :
    (fuel max off : ℕ) (given : Bool) (c : ℕ) (str out : List ℕ) {r : ℕ × ℕ}
    → token_decode (c ∷ str) ≡ some r
    → (c == b'=') ≡ false
    → off < max
    → length out ≤ max
    → 4 - r.1 ≤ length (c ∷ str)
    → decode_loop (suc fuel) max given off (c ∷ str) out
      ≡ decode_loop fuel max given
          (off + (4 - r.1))
          (drop (4 - r.1) (c ∷ str))
          (out ++ token_bytes r)
unfolding decode_loop
decode_step fuel max off given c str out {r} e p l o n =
    let a : ltb off max ≡ true = ground arith in
    let b : ltb max (length out) ≡ false = ground arith in
    let d : ltb (length (c ∷ str)) (4 - r.1) ≡ false = ground arith in rw (p, a, b, e, d)

pub decode_fails :
    (fuel max off : ℕ) (given : Bool) (c : ℕ) (str out : List ℕ)
    → token_decode (c ∷ str) ≡ none
    → (c == b'=') ≡ false
    → off < max
    → length out ≤ max
    → decode_loop (suc fuel) max given off (c ∷ str) out ≡ failed invalid_base64
unfolding decode_loop
decode_fails fuel max off given c str out e p l o =
    let a : ltb off max ≡ true = ground arith in
    let b : ltb max (length out) ≡ false = ground arith in rw (p, a, b, e)
