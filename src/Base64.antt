-- ===== src/Base64.antt =====
-- libbrowserid/bid_base64.c: base64 and base64url. A string is the list of its characters without
-- the final NUL, a byte array the list of its bytes. Masks and shifts are written as remainders
-- and quotients, and memory is never short.
mod Tests
pub mod Chars
pub mod Ascii
pub mod Tokens
pub mod Encoding
pub mod RoundTrip
pub mod Inverse
pub mod Bounds
use Prim.Native.Char.{code}
use Prim.Native.String.{String}
use libbrowserid.Prelude.{
  ℕ, zero, suc, ◌+◌, ◌-◌, ◌*◌, ◌/◌, ◌%◌, ◌^◌, Bool, true, false, ◌||◌, List, [], ◌∷◌, ◌++◌, Option,
  none, some, ltb, leb, ◌==◌, if◌then◌else◌, length, get_or, drop, map,
}
use libbrowserid.Status.{
  Result, good, bad, BidError, invalid_parameter, buffer_too_long, invalid_base64, buffer_too_small,
}

abbrev pub codes : String → List ℕ
codes String.[] = []
codes (String.◌∷◌ c s) = code c ∷ codes s

abbrev pub base64url_chars : List ℕ
base64url_chars = codes "ABCDEFGHIJKLMNOPQRSTUVWXYZabcdefghijklmnopqrstuvwxyz0123456789-_"

abbrev pub base64_chars : List ℕ
base64_chars = codes "ABCDEFGHIJKLMNOPQRSTUVWXYZabcdefghijklmnopqrstuvwxyz0123456789+/"

-- `BASE64_EXPAND`
abbrev pub base64_expand : ℕ → ℕ
base64_expand n = n * 4 / 3 + 4

-- The loop of `pos` over the table.
find_from : ℕ → List ℕ → ℕ → Option ℕ
find_from i [] c = none
find_from i (x ∷ xs) c = let rest = find_from (i + 1) xs c in if x == c then some i else rest

-- `pos`; `none` is DECODE_ERROR.
pub pos : ℕ → Option ℕ
unfolding find_from
pos c = find_from 0 base64url_chars (if c == b'+' then b'-' else if c == b'/' then b'_' else c)

-- BID_ENCODING_BASE64_URL and BID_ENCODING_BASE64.
abbrev pub encoding_url : ℕ
encoding_url = 1

abbrev pub encoding_base64 : ℕ
encoding_base64 = 2

abbrev pub chars : Bool → List ℕ
chars url = if url then base64url_chars else base64_chars

-- What is written in place of a missing character.
abbrev pub pad : Bool → ℕ
pad url = if url then 0 else b'='

-- `chars[(c & mask) >> shift]` for the four masks.
abbrev pub char_at : Bool → ℕ → ℕ → ℕ
char_at url c shift = get_or (chars url) (c / 2 ^ shift % 64) 0

-- The loop of `_BIDBase64Encode`: a round takes three bytes, or the one or two that are left, and
-- writes four characters. The test `i > size + 1` is true of a last round with one byte, and
-- `i > size` of one with two.
pub encode_loop : Bool → List ℕ → List ℕ
encode_loop url [] = []
encode_loop url (a ∷ []) =
    let c = a * 256 * 256 in char_at url c 18 ∷ char_at url c 12 ∷ pad url ∷ char_at url c 0 ∷ []
encode_loop url (a ∷ b ∷ []) =
    let c = (a * 256 + b) * 256 in
    char_at url c 18 ∷ char_at url c 12 ∷ char_at url c 6 ∷ pad url ∷ []
encode_loop url (a ∷ b ∷ d ∷ q) =
    let c = (a * 256 + b) * 256 + d in
    char_at url c 18 ∷ char_at url c 12 ∷ char_at url c 6 ∷ char_at url c 0 ∷ encode_loop url q

-- The string that a buffer holds: the characters before its first NUL.
unfoldable pub c_string : List ℕ → List ℕ
c_string [] = []
c_string (x ∷ xs) = let rest = x ∷ c_string xs in if x == 0 then [] else rest

-- `_BIDBase64Encode`. `UINT_MAX/4` is of a 32-bit `unsigned`.
pub base64_encode : List ℕ → ℕ → Result (List ℕ)
unfolding encode_loop c_string
base64_encode bytes encoding =
    if encoding == encoding_url || encoding == encoding_base64
    then (if ltb (2 ^ 30 - 1) (length bytes)
        then bad buffer_too_long
        else good (c_string (encode_loop (encoding == encoding_url) bytes)))
    else bad invalid_parameter

-- `_BIDBase64UrlEncode`
unfoldable pub base64_url_encode : List ℕ → Result (List ℕ)
unfolding base64_encode
base64_url_encode bytes = base64_encode bytes encoding_url

-- The loop of `_BIDBase64UrlTokenDecode`, by the rounds left: the value and the marker.
pub token_loop : ℕ → List ℕ → ℕ → ℕ → Option (ℕ × ℕ)
token_loop zero token val marker = some (val, marker)
token_loop (suc n) [] val marker = token_loop n [] (val * 64) marker
token_loop (suc n) (c ∷ token) val marker =
    let padded = token_loop n token (val * 64) (marker + 1) in
    let more = λ (tmp : ℕ). token_loop n token (val * 64 + tmp) marker in
    if c == b'='
    then padded
    else if marker == 0
    then elim (pos c) [ none ↦ none | some tmp ↦ more tmp ]
    else none

-- The end of it.
abbrev token_end : ℕ → ℕ × ℕ → Option (ℕ × ℕ)
token_end toklen (val, marker) =
    let m = if marker == 0 then 4 - toklen else marker in if ltb 2 m then none else some (val, m)

-- `_BIDBase64UrlTokenDecode`, on a string that is not empty. The result `(marker << 24) | val` is
-- the pair; `none` is DECODE_ERROR.
pub token_decode : List ℕ → Option (ℕ × ℕ)
token_decode token =
    let toklen = if ltb 4 (length token) then 4 else length token in
    if ltb (length token) 2
    then none
    else elim (token_loop 4 token 0 0) [ none ↦ none | some r ↦ token_end toklen r ]

-- The bytes that one token stands for.
abbrev pub token_bytes : ℕ × ℕ → List ℕ
token_bytes (val, marker) =
    (val / 2 ^ 16 % 256)
    ∷ (if ltb marker 2
        then (val / 2 ^ 8 % 256) ∷ (if ltb marker 1 then (val % 256) ∷ [] else [])
        else [])

-- How `_BIDBase64UrlDecode` ends: with the bytes that it has written, with an error, in a failed
-- assertion, with `p` moved past the NUL that ends the string (what it reads there is not defined),
-- or (which is no end) without fuel.
pub data Decoded : Type 0 where
  decoded : List ℕ → Decoded
  failed : BidError → Decoded
  aborted : Decoded
  overread : Decoded
  stuck : Decoded

-- The loop of `_BIDBase64UrlDecode`. `max` is `maxLength`, `off` is `p - str`, `out` the bytes
-- written. The second assertion is implied by the test behind it.
pub decode_loop : ℕ → ℕ → Bool → ℕ → List ℕ → List ℕ → Decoded
decode_loop zero max given off str out = stuck
decode_loop (suc fuel) max given off [] out = decoded out
decode_loop (suc fuel) max given off (c ∷ str) out =
    let next = λ (r : ℕ × ℕ).
      decode_loop fuel max given (off + (4 - r.1)) (drop (4 - r.1) (c ∷ str))
        (out ++ token_bytes r) in
    let step = λ (r : ℕ × ℕ). if ltb (length (c ∷ str)) (4 - r.1) then overread else next r in
    if c == b'='
    then decoded out
    else if ltb off max
    then (if ltb max (length out)
        then (if given then failed buffer_too_small else aborted)
        else elim (token_decode (c ∷ str)) [ none ↦ failed invalid_base64 | some r ↦ step r ])
    else aborted

-- `_BIDBase64UrlDecode`, into a buffer that it allocates, or into the caller's buffer of `n` bytes.
unfoldable pub base64_url_decode : List ℕ → Option ℕ → Decoded
unfolding decode_loop token_decode token_loop pos
base64_url_decode str none = decode_loop (length str + 1) (length str + 1) false 0 str []
base64_url_decode str (some n) = decode_loop (length str + 1) n true 0 str []
