-- ===== src/Base64/Inverse.antt =====
-- `_BIDBase64UrlDecode` after `_BIDBase64Encode`.
use libbrowserid.Prelude.{
  ℕ, zero, suc, ◌+◌, ◌-◌, ◌*◌, ◌%◌, ◌^◌, ◌<◌, ◌≤◌, ◌≡◌, ◌≢◌, refl, sym, ap, ◌∙◌, Bool, true, false,
  List, [], ◌∷◌, ◌++◌, none, some, ltb, if◌then◌else◌, length, arith, IsByte, All, append-nil,
  append_assoc, length-append,
}
use libbrowserid.Status.{good, invalid_base64}
use libbrowserid.Base64.{
  char_at, base64_encode, base64_url_encode, decode_loop, base64_url_decode, decoded, failed,
  encoding_url, encoding_base64,
}
use libbrowserid.Base64.Tokens.{token_broken_pad}
use libbrowserid.Base64.Encoding.{encoding, c_string-encode, decode_fails}
use libbrowserid.Base64.RoundTrip.{decode_group, decode_one, decode_two, h, not_pad, six}

-- The lengths whose encoding is well formed: all, or those that leave no single byte.
abbrev IsClean : Bool → List ℕ → Type 0
IsClean true bytes = Unit
IsClean false bytes = length bytes % 3 ≢ 1

IsClean-tail : (url : Bool) (a b d : ℕ) (q : List ℕ) → IsClean url (a ∷ b ∷ d ∷ q) → IsClean url q
IsClean-tail true a b d q c = tt
IsClean-tail false a b d q c = λ e. c (omega arith)

encoding_pos : (url : Bool) (a : ℕ) (q : List ℕ) → 0 < length (encoding url (a ∷ q))
encoding_pos true a [] = omega arith
encoding_pos false a [] = omega arith
encoding_pos url a (b ∷ []) = omega arith
encoding_pos url a (b ∷ d ∷ q) = omega arith

decode_encoding :
    (url given : Bool) (fuel max off : ℕ) (bytes out : List ℕ)
    → All IsByte bytes
    → IsClean url bytes
    → length (encoding url bytes) < fuel
    → off + length (encoding url bytes) < max
    → length out ≤ off
    → decode_loop fuel max given off (encoding url bytes) out ≡ decoded (out ++ bytes)
decode_encoding url given zero max off bytes out v c f m o = absurd (omega arith)
decode_encoding url given (suc fuel) max off [] out v c f m o =
    unfold decode_loop in ap decoded (sym (append-nil out))
decode_encoding url given (suc zero) max off (a ∷ q) out v c f m o =
    absurd (omega (arith, encoding_pos url a q))
decode_encoding true given (suc (suc fuel)) max off (a ∷ []) out v c f m o =
    decode_one given fuel max off a out v.0 (omega arith) (omega arith)
decode_encoding false given (suc (suc fuel)) max off (a ∷ []) out v c f m o = absurd (c refl)
decode_encoding url given (suc (suc fuel)) max off (a ∷ b ∷ []) out v c f m o =
    decode_two url given fuel max off a b out v.0 (v.1.0)
      (omega (arith, encoding_pos url a (b ∷ []))) (omega (arith, encoding_pos url a (b ∷ [])))
decode_encoding url given (suc (suc fuel)) max off (a ∷ b ∷ d ∷ q) out (ha, (hb, (hd, v))) c f m o =
    decode_group url given (suc fuel) max off a b d (encoding url q) out ha hb hd (omega arith)
      (omega arith)
    ∙ decode_encoding url given (suc fuel) max (off + 4) q (out ++ (a ∷ b ∷ d ∷ [])) v
        (IsClean-tail url a b d q c) (omega arith) (omega arith)
        (omega (arith, length-append out (a ∷ b ∷ d ∷ [])))
    ∙ ap decoded (append_assoc out (a ∷ b ∷ d ∷ []) q)

decode_broken :
    (given : Bool) (fuel max off : ℕ) (bytes out : List ℕ)
    → All IsByte bytes
    → length bytes % 3 ≡ 1
    → length (encoding false bytes) < fuel
    → off + length (encoding false bytes) < max
    → length out ≤ off
    → decode_loop fuel max given off (encoding false bytes) out ≡ failed invalid_base64
decode_broken given zero max off bytes out v c f m o = absurd (omega arith)
decode_broken given (suc fuel) max off [] out v c f m o = absurd (omega arith)
decode_broken given (suc fuel) max off (a ∷ []) out v c f m o =
    let n : ℕ = a * 256 * 256 in
    decode_fails fuel max off given (char_at false n 18) _ out
      (token_broken_pad (six n 18) (six n 12) (six n 6) (six n 0) _ _ (char_at false n 6) _
        (h false n 18) (h false n 12) (h false n 6) (h false n 0) [])
      (not_pad false n) (omega arith) (omega arith)
decode_broken given (suc fuel) max off (a ∷ b ∷ []) out v c f m o = absurd (omega arith)
decode_broken given (suc fuel) max off (a ∷ b ∷ d ∷ q) out (ha, (hb, (hd, v))) c f m o =
    decode_group false given fuel max off a b d (encoding false q) out ha hb hd (omega arith)
      (omega arith)
    ∙ decode_broken given fuel max (off + 4) q (out ++ (a ∷ b ∷ d ∷ [])) v (omega arith)
        (omega arith) (omega arith) (omega (arith, length-append out (a ∷ b ∷ d ∷ [])))

encode_good :
    (url : Bool) (bytes : List ℕ)
    → length bytes < 2 ^ 30
    → base64_encode bytes (if url then encoding_url else encoding_base64)
      ≡ good (encoding url bytes)
unfolding base64_encode
encode_good true bytes l =
    let e : ltb (2 ^ 30 - 1) (length bytes) ≡ false = ground arith in
    rw (e, c_string-encode true bytes)
encode_good false bytes l =
    let e : ltb (2 ^ 30 - 1) (length bytes) ≡ false = ground arith in
    rw (e, c_string-encode false bytes)

-- Every byte array of fewer than 2^30 bytes is encoded by `_BIDBase64UrlEncode`, and
-- `_BIDBase64UrlDecode` into a buffer of its own gives the same bytes back.
pub decode-url_encode :
    (bytes : List ℕ)
    → All IsByte bytes
    → length bytes < 2 ^ 30
    → (s : List ℕ) × (base64_url_encode bytes ≡ good s) × (base64_url_decode s none ≡ decoded bytes)
unfolding base64_url_encode base64_url_decode
decode-url_encode bytes v l = (
  encoding true bytes,
  encode_good true bytes l,
  decode_encoding true false _ _ 0 bytes [] v tt (omega arith) (omega arith) (omega arith),
)

-- Every byte array of fewer than 2^30 bytes is encoded by `_BIDBase64Encode` with
-- BID_ENCODING_BASE64, and `_BIDBase64UrlDecode` into a buffer of its own gives the same bytes back,
-- if the length does not leave a single byte for the last group.
pub decode-encode :
    (bytes : List ℕ)
    → All IsByte bytes
    → length bytes < 2 ^ 30
    → length bytes % 3 ≢ 1
    → (s : List ℕ) × (base64_encode bytes encoding_base64 ≡ good s)
      × (base64_url_decode s none ≡ decoded bytes)
unfolding base64_url_decode
decode-encode bytes v l c = (
  encoding false bytes,
  encode_good false bytes l,
  decode_encoding false false _ _ 0 bytes [] v c (omega arith) (omega arith) (omega arith),
)

-- A byte array of fewer than 2^30 bytes whose length leaves a single byte for the last group is
-- encoded by `_BIDBase64Encode` with BID_ENCODING_BASE64, and the decoder rejects the encoding as
-- invalid base64. (Only the third character of the last group is replaced by a padding.)
pub decode-encode_lone :
    (bytes : List ℕ)
    → All IsByte bytes
    → length bytes < 2 ^ 30
    → length bytes % 3 ≡ 1
    → (s : List ℕ) × (base64_encode bytes encoding_base64 ≡ good s)
      × (base64_url_decode s none ≡ failed invalid_base64)
unfolding base64_url_decode
decode-encode_lone bytes v l c = (
  encoding false bytes,
  encode_good false bytes l,
  decode_broken false _ _ 0 bytes [] v c (omega arith) (omega arith) (omega arith),
)

-- The encoding of three bytes, decoded into a caller's buffer of one byte, is written in full: the
-- decoder tests the space only before it writes a group.
pub decode_overruns :
    (a b d : ℕ)
    → All IsByte (a ∷ b ∷ d ∷ [])
    → (s : List ℕ) × (base64_url_encode (a ∷ b ∷ d ∷ []) ≡ good s)
      × (base64_url_decode s (some 1) ≡ decoded (a ∷ b ∷ d ∷ []))
unfolding base64_url_encode base64_url_decode
decode_overruns a b d (ha, (hb, (hd, v))) = (
  encoding true (a ∷ b ∷ d ∷ []),
  encode_good true (a ∷ b ∷ d ∷ []) (omega arith),
  decode_group true true 4 1 0 a b d [] [] ha hb hd (omega arith) (omega arith)
      ∙ unfold decode_loop in refl,
)
