-- ===== src/Base64/RoundTrip.antt =====
-- Decoding what was encoded, in both encodings of bid_base64.c.
use libbrowserid.Prelude.{
  ℕ, suc, ◌+◌, ◌*◌, ◌/◌, ◌%◌, ◌^◌, ◌<◌, ◌≤◌, ◌≡◌, ap, ◌∙◌, Bool, true, false, List, [], ◌∷◌, ◌++◌,
  ◌==◌, length, arith, IsByte,
}
use libbrowserid.Base64.{char_at, token_bytes, decode_loop, decoded}
use libbrowserid.Base64.Chars.{IsCode, char_at-IsCode}
use libbrowserid.Base64.Tokens.{token_full, token_two, token_three, token_three_padded}
use libbrowserid.Base64.Encoding.{encoding, decode_step}

-- The six bits of a character, and its facts.
abbrev pub six : ℕ → ℕ → ℕ
six c shift = c / 2 ^ shift % 64

module _ (url : Bool) (c : ℕ) where
  pub h : (shift : ℕ) → IsCode (six c shift) (char_at url c shift)
  h = char_at-IsCode url c

  pub not_pad : (char_at url c 18 == b'=') ≡ false
  not_pad = (h 18).not_pad

-- A whole group.
pub decode_group :
    (url given : Bool) (fuel max off a b d : ℕ) (rest out : List ℕ)
    → IsByte a
    → IsByte b
    → IsByte d
    → off < max
    → length out ≤ max
    → let c = (a * 256 + b) * 256 + d in
      decode_loop
        (suc fuel)
        max
        given
        off
        (char_at url c 18 ∷ char_at url c 12 ∷ char_at url c 6 ∷ char_at url c 0 ∷ rest)
        out
      ≡ decode_loop fuel max given (off + 4) rest (out ++ (a ∷ b ∷ d ∷ []))
decode_group url given fuel max off a b d rest out ha hb hd l o =
    let c : ℕ = (a * 256 + b) * 256 + d in
    let t : List ℕ = char_at url c 12 ∷ char_at url c 6 ∷ char_at url c 0 ∷ rest in
    let e : token_bytes ((((0 * 64 + six c 18) * 64 + six c 12) * 64 + six c 6) * 64 + six c 0, 0)
        ≡ a ∷ b ∷ d ∷ [] =
      ground arith in
    decode_step fuel max off given (char_at url c 18) t out
      (token_full (six c 18) (six c 12) (six c 6) (six c 0) _ _ _ _ (h url c 18) (h url c 12)
        (h url c 6) (h url c 0) rest)
      (not_pad url c) l o (omega arith)
    ∙ ap (λ w. decode_loop fuel max given (off + 4) rest (out ++ w)) e

-- The end of an encoding: one byte, or two.
pub decode_one :
    (given : Bool) (fuel max off a : ℕ) (out : List ℕ)
    → IsByte a
    → off < max
    → length out ≤ max
    → decode_loop (suc (suc fuel)) max given off (encoding true (a ∷ [])) out
      ≡ decoded (out ++ (a ∷ []))
decode_one given fuel max off a out ha l o =
    let c : ℕ = a * 256 * 256 in
    let e : token_bytes (((0 * 64 + six c 18) * 64 + six c 12) * 64 * 64, 2) ≡ a ∷ [] =
      ground arith in
    decode_step (suc fuel) max off given (char_at true c 18) (char_at true c 12 ∷ []) out
      (token_two (six c 18) (six c 12) (six c 6) (six c 0) _ _ (char_at true c 6) (char_at true c 0)
        (h true c 18) (h true c 12) (h true c 6) (h true c 0))
      (not_pad true c) l o (omega arith)
    ∙ unfold decode_loop in ap (λ w. decoded (out ++ w)) e

pub decode_two :
    (url given : Bool) (fuel max off a b : ℕ) (out : List ℕ)
    → IsByte a
    → IsByte b
    → off < max
    → length out ≤ max
    → decode_loop (suc (suc fuel)) max given off (encoding url (a ∷ b ∷ [])) out
      ≡ decoded (out ++ (a ∷ b ∷ []))
decode_two true given fuel max off a b out ha hb l o =
    let c : ℕ = (a * 256 + b) * 256 in
    let e : token_bytes ((((0 * 64 + six c 18) * 64 + six c 12) * 64 + six c 6) * 64, 1)
        ≡ a ∷ b ∷ [] =
      ground arith in
    decode_step (suc fuel) max off given (char_at true c 18)
      (char_at true c 12 ∷ char_at true c 6 ∷ []) out
      (token_three (six c 18) (six c 12) (six c 6) (six c 0) _ _ _ (char_at true c 0) (h true c 18)
        (h true c 12) (h true c 6) (h true c 0))
      (not_pad true c) l o (omega arith)
    ∙ unfold decode_loop in ap (λ w. decoded (out ++ w)) e
decode_two false given fuel max off a b out ha hb l o =
    let c : ℕ = (a * 256 + b) * 256 in
    let e : token_bytes ((((0 * 64 + six c 18) * 64 + six c 12) * 64 + six c 6) * 64, 1)
        ≡ a ∷ b ∷ [] =
      ground arith in
    decode_step (suc fuel) max off given (char_at false c 18)
      (char_at false c 12 ∷ char_at false c 6 ∷ b'=' ∷ []) out
      (token_three_padded (six c 18) (six c 12) (six c 6) (six c 0) _ _ _ (char_at false c 0)
        (h false c 18) (h false c 12) (h false c 6) (h false c 0))
      (not_pad false c) l o (omega arith)
    ∙ unfold decode_loop in ap (λ w. decoded (out ++ w)) e
