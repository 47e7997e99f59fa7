-- ===== src/Base64/Tests.antt =====
-- Runs of the base64 code.
use libbrowserid.Prelude.{
  ℕ, ◌+◌, ◌≤◌, ◌≡◌, refl, true, List, [], ◌++◌, ◌∷◌, none, some, length, arith,
}
use libbrowserid.Status.{good, invalid_base64}
use libbrowserid.Base64.{
  codes, base64_encode, base64_url_encode, base64_url_decode, decoded, failed, overread, pos,
  encode_loop, base64_expand, encoding_base64,
}
use libbrowserid.Base64.Inverse.{
  decode-url_encode, decode-encode, decode-encode_lone, decode_overruns,
}
use libbrowserid.Base64.Chars.{IsCode}
use libbrowserid.Base64.Bounds.{
  Within, EndsLone, group, no_group, decode-Within, encode_loop-fits, decode_reads_over,
}

encode_foob : base64_url_encode (codes "foob") ≡ good (codes "Zm9vYg")
unfolding base64_url_encode
encode_foob = refl

encode_std : base64_encode (codes "foob") 2 ≡ good (codes "Zm9vYg=A")
unfolding base64_encode
encode_std = refl

decode_foob : base64_url_decode (codes "Zm9vYg") none ≡ decoded (codes "foob")
unfolding base64_url_decode
decode_foob = refl

decode_padded : base64_url_decode (codes "Zm9vYg==") none ≡ decoded (codes "foob")
unfolding base64_url_decode
decode_padded = refl

decode_std : base64_url_decode (codes "Zm9vYg=A") none ≡ failed invalid_base64
unfolding base64_url_decode
decode_std = refl

decode-url_encode_example :
    (s : List ℕ) × (base64_url_encode (102 ∷ 111 ∷ []) ≡ good s)
    × (base64_url_decode s none ≡ decoded (102 ∷ 111 ∷ []))
decode-url_encode_example = decode-url_encode (102 ∷ 111 ∷ []) (omega arith) (omega arith)

decode-encode_example :
    (s : List ℕ) × (base64_encode (102 ∷ 111 ∷ []) encoding_base64 ≡ good s)
    × (base64_url_decode s none ≡ decoded (102 ∷ 111 ∷ []))
decode-encode_example = decode-encode (102 ∷ 111 ∷ []) (omega arith) (omega arith) (omega arith)

decode-encode_lone_example :
    (s : List ℕ) × (base64_encode (102 ∷ []) encoding_base64 ≡ good s)
    × (base64_url_decode s none ≡ failed invalid_base64)
decode-encode_lone_example = decode-encode_lone (102 ∷ []) (omega arith) (omega arith) (omega arith)

decode_overruns_example :
    (s : List ℕ) × (base64_url_encode (1 ∷ 2 ∷ 3 ∷ []) ≡ good s)
    × (base64_url_decode s (some 1) ≡ decoded (1 ∷ 2 ∷ 3 ∷ []))
decode_overruns_example = decode_overruns 1 2 3 (omega arith)

decode-Within_example :
    Within
      (length (codes "Zm9vYg=="))
      (EndsLone (codes "Zm9vYg=="))
      (base64_url_decode (codes "Zm9vYg==") none)
decode-Within_example = decode-Within (codes "Zm9vYg==")

encode_loop-fits_example : length (encode_loop true (102 ∷ [])) + 1 ≤ base64_expand 1
encode_loop-fits_example = encode_loop-fits true (102 ∷ [])

letter_Z : IsCode 25 b'Z'
letter_Z = record { found = unfold pos in refl; not_pad = refl; not_nul = refl; ascii = refl }

letter_m : IsCode 38 b'm'
letter_m = record { found = unfold pos in refl; not_pad = refl; not_nul = refl; ascii = refl }

-- "ZmmZZ="
decode_reads_over_example :
    base64_url_decode ((b'Z' ∷ b'm' ∷ b'm' ∷ b'Z' ∷ []) ++ (b'Z' ∷ b'=' ∷ [])) none ≡ overread
decode_reads_over_example =
    decode_reads_over (b'Z' ∷ b'm' ∷ b'm' ∷ b'Z' ∷ []) 25 b'Z'
      (group letter_Z letter_m letter_m letter_Z no_group) letter_Z

-- "ZZ=" is two characters and one padding.
decode_two : base64_url_decode (codes "ZZ=") none ≡ decoded (101 ∷ 144 ∷ [])
unfolding base64_url_decode
decode_two = refl
