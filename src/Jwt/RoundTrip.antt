-- ===== src/Jwt/RoundTrip.antt =====
-- A token that is written is read back.
use libbrowserid.Prelude.{
  ℕ, ◌+◌, ◌<◌, ◌^◌, ◌≡◌, refl, ap, ◌∙◌, List, [], ◌∷◌, ◌++◌, append_assoc, All, IsByte, length,
  length-append, Option, none, some, arith,
}
use libbrowserid.Status.{good, ok, ◌>>=◌, invalid_json}
use libbrowserid.Base64.{c_string, base64_url_encode, base64_url_decode, decoded}
use libbrowserid.Base64.Ascii.{IsPlainText, url_encode-All, IsCharacter, c_string_self}
use libbrowserid.Base64.Inverse.{decode-url_encode}
use libbrowserid.Json.{Jansson}
use libbrowserid.Jwt.{
  JsonText, parsed, bind, of_decoded, or_error, dumped, encode_json, decode_json,
  validate_jwt_header, parse_parts, parse_jwt, make_signature_data, append_signature,
}
use libbrowserid.Jwt.Split.{split_at-append, IsPlainText→no_dot}

-- A value whose text the JSON library reads back, a string of fewer than 2^30 characters.
pub record HasText (J : Jansson) (T : JsonText J) (json : J.json) (s : List ℕ) : Type 0 where
  pub written : T.dumps json ≡ some s
  pub read : T.loads s ≡ some json
  pub characters : All IsCharacter s
  pub short : length s < 2 ^ 30

IsCharacter→IsByte : (s : List ℕ) → All IsCharacter s → All IsByte s
IsCharacter→IsByte [] h = tt
IsCharacter→IsByte (c ∷ s) ((p, q), ps) = (q, IsCharacter→IsByte s ps)

abbrev pub signature_bytes : Option (List ℕ) → List ℕ
signature_bytes none = []
signature_bytes (some s) = s

append-decode_signature :
    (signature : Option (List ℕ)) (d : List ℕ)
    → All IsByte (signature_bytes signature)
    → length (signature_bytes signature) < 2 ^ 30
    → (s : List ℕ) × (append_signature d signature ≡ good (d ++ (b'.' ∷ s)))
      × (base64_url_decode s none ≡ decoded (signature_bytes signature))
unfolding append_signature base64_url_decode
append-decode_signature none d b l = ([], refl, refl)
append-decode_signature (some x) d b l =
    let (s, enc, dec) = decode-url_encode x b l in
    (s, ap (λ r. r >>= λ t. good (d ++ (b'.' ∷ t))) enc, dec)

module _ (J : Jansson) (T : JsonText J) where
  -- The encoding of a value, without a dot, and its decoding.
  encode-decode_json :
      (json : J.json) (s : List ℕ)
      → HasText J T json s
      → (t : List ℕ) × (encode_json J T json ≡ good t)
        × (decode_json J T t ≡ parsed json)
        × All IsPlainText t
  unfolding encode_json decode_json
  encode-decode_json json s h =
      let (t, enc, dec) = decode-url_encode s (IsCharacter→IsByte s h.characters) h.short in
      (
        t,
        ap (λ o. dumped J T o >>= base64_url_encode) h.written ∙ enc,
        ap (λ d. bind (of_decoded d) (λ bytes. or_error (T.loads (c_string bytes)) invalid_json))
              dec
            ∙ (ap (λ x. or_error (T.loads x) invalid_json) (c_string_self s h.characters)
                ∙ ap (λ o. or_error o invalid_json) h.read),
        url_encode-All s t enc,
      )

  parse_jwt-append :
      (h p s : List ℕ)
      → All IsPlainText h
      → All IsPlainText p
      → parse_jwt J T (h ++ (b'.' ∷ (p ++ (b'.' ∷ s))))
        ≡ bind (parse_parts J T h p s) (λ jwt. parsed (some jwt))
  unfolding parse_jwt
  parse_jwt-append [] p s a b =
      let second = split_at-append b'.' p s (IsPlainText→no_dot p b) refl in rw second refl
  parse_jwt-append (c ∷ h) p s a b =
      let first =
        split_at-append b'.' (c ∷ h) (p ++ (b'.' ∷ s)) (IsPlainText→no_dot (c ∷ h) a) refl in
      let second = split_at-append b'.' p s (IsPlainText→no_dot p b) refl in rw (first, second) refl

  parse_parts_eq :
      (h p s sig : List ℕ) (header payload : J.json)
      → decode_json J T h ≡ parsed header
      → validate_jwt_header J T header ≡ ok
      → decode_json J T p ≡ parsed payload
      → base64_url_decode s none ≡ decoded sig
      → parse_parts J T h p s
        ≡ parsed (record {
          enc_data = h ++ (b'.' ∷ (p ++ (b'.' ∷ s)));
          enc_length = length (h ++ (b'.' ∷ p));
          header = header;
          payload = payload;
          signature = sig;
        })
  unfolding parse_parts
  parse_parts_eq h p s sig header payload dh valid dp ds =
      let count : length h + 1 + length p ≡ length (h ++ (b'.' ∷ p)) =
        omega (arith, length-append h (b'.' ∷ p)) in
      rw (dh, valid, dp, ds)
        (ap
          (λ n. parsed (record {
            enc_data = h ++ (b'.' ∷ (p ++ (b'.' ∷ s)));
            enc_length = n;
            header = header;
            payload = payload;
            signature = sig;
          }))
          count)

  -- A token made of a header and a payload that the JSON library can write and read back, with a
  -- header that `_BIDValidateJWTHeader` accepts, and with a signature or none, is parsed by
  -- `_BIDParseJWT` into the same header, payload and signature, and what was signed is the part
  -- that it marks as signed.
  pub parse-make_jwt :
      (header payload : J.json) (hs ps : List ℕ) (signature : Option (List ℕ))
      → HasText J T header hs
      → HasText J T payload ps
      → validate_jwt_header J T header ≡ ok
      → All IsByte (signature_bytes signature)
      → length (signature_bytes signature) < 2 ^ 30
      → (d t : List ℕ) × (make_signature_data J T header payload ≡ good d)
        × (append_signature d signature ≡ good t)
        × (parse_jwt J T t
            ≡ parsed (
                some (record {
                  enc_data = t;
                  enc_length = length d;
                  header = header;
                  payload = payload;
                  signature = signature_bytes signature;
                })))
  unfolding make_signature_data
  parse-make_jwt header payload hs ps signature hh hp valid b l =
      let (h, eh, dh, ah) = encode-decode_json header hs hh in
      let (p, ep, dp, ap') = encode-decode_json payload ps hp in
      let d = h ++ (b'.' ∷ p) in
      let (s, es, ds) = append-decode_signature signature d b l in
      let whole : append_signature d signature ≡ good (h ++ (b'.' ∷ (p ++ (b'.' ∷ s)))) =
        es ∙ ap good (append_assoc h (b'.' ∷ p) (b'.' ∷ s)) in
      (
        d,
        h ++ (b'.' ∷ (p ++ (b'.' ∷ s))),
        ap (λ r. r >>= λ x. encode_json J T payload >>= λ y. good (x ++ (b'.' ∷ y))) eh
            ∙ ap (λ r. r >>= λ y. good (h ++ (b'.' ∷ y))) ep,
        whole,
        parse_jwt-append h p s ah ap'
            ∙ ap (λ r. bind r (λ jwt. parsed (some jwt)))
                (parse_parts_eq h p s (signature_bytes signature) header payload dh valid dp ds),
      )
