-- ===== src/Jwt.antt =====
-- libbrowserid/bid_jwt.c: JSON web tokens as text, three parts in base64url with dots between them.
-- The text of JSON is made and read by the JSON library, which is a parameter.
pub mod Split
pub mod RoundTrip
pub mod Model
pub mod Texts
mod Tests
use libbrowserid.Prelude.{
  ℕ, ◌+◌, Bool, true, false, not, ◌&&◌, ◌||◌, List, [], ◌∷◌, ◌++◌, Option, none, some, length, ◌==◌,
  if◌then◌else◌,
}
use libbrowserid.Status.{
  Result, good, bad, BidError, ok, ◌>>=◌, cannot_encode_json, invalid_json, invalid_json_web_token,
  invalid_signature,
}
use libbrowserid.Base64.{
  codes, c_string, base64_url_encode, base64_url_decode, Decoded, decoded, failed, aborted,
  overread, stuck,
}
use libbrowserid.Spn.{str_eq}
use libbrowserid.Json.{Jansson}

-- `json_dumps` with JSON_COMPACT, `json_loads`, and the members in the order of the iterator for a
-- value that `json_is_object`.
pub record JsonText (J : Jansson) : Type 0 where
  pub dumps : J.json → Option (List ℕ)
  pub loads : List ℕ → Option J.json
  pub object_items : J.json → Option (List (List ℕ × J.json))

-- How parsing ends; `undefined` is the base64 decoder's read outside its string.
pub data Parsed {ℓ} (A : Type ℓ) : Type ℓ where
  parsed : A → Parsed A
  rejected : BidError → Parsed A
  undefined : Parsed A

abbrev pub bind {ℓ κ} : {A : Type ℓ} {B : Type κ} → Parsed A → (A → Parsed B) → Parsed B
bind (parsed a) f = f a
bind (rejected e) f = rejected e
bind undefined f = undefined

-- `_BIDBase64UrlDecode` into its own buffer, whose assertions hold.
abbrev pub of_decoded : Decoded → Parsed (List ℕ)
of_decoded (decoded bytes) = parsed bytes
of_decoded (failed e) = rejected e
of_decoded _ = undefined

-- `_BIDIsValidJWTHeaderParameterP`
pub is_valid_parameter : List (List ℕ) → List ℕ → Bool
is_valid_parameter [] s = false
is_valid_parameter (p ∷ ps) s = let rest = is_valid_parameter ps s in str_eq s p || rest

-- `_BIDValidJWTHeaderParameters`
abbrev pub header_parameters : List (List ℕ)
header_parameters =
    codes "alg" ∷ codes "crit" ∷ codes "cty" ∷ codes "typ" ∷ codes "x5c" ∷ codes "x5t" ∷ []

-- `strchr(s, c)`: what stands before the first `c`, and behind it.
unfoldable pub split_at : ℕ → List ℕ → Option (List ℕ × List ℕ)
split_at c [] = none
split_at c (x ∷ xs) =
    let rest = split_at c xs in
    if x == c
    then some ([], xs)
    else elim rest [ none ↦ none | some (before, behind) ↦ some (x ∷ before, behind) ]

abbrev pub or_error {ℓ} : {A : Type ℓ} → Option A → BidError → Parsed A
or_error none e = rejected e
or_error (some a) e = parsed a

abbrev pub passed : BidError → Parsed (Unit {0})
passed ok = parsed tt
passed e = rejected e

-- `BIDJWT`. `enc_length` counts the signed part of `enc_data`.
pub record Jwt (J : Jansson) : Type 0 where
  pub enc_data : List ℕ
  pub enc_length : ℕ
  pub header : J.json
  pub payload : J.json
  pub signature : List ℕ

module _ (J : Jansson) (T : JsonText J) where
  abbrev pub dumped : Option (List ℕ) → Result (List ℕ)
  dumped none = bad cannot_encode_json
  dumped (some s) = good s

  -- `_BIDEncodeJson`
  unfoldable pub encode_json : J.json → Result (List ℕ)
  encode_json json = do s ← dumped (T.dumps json); base64_url_encode s

  -- `_BIDDecodeJson`
  pub decode_json : List ℕ → Parsed J.json
  decode_json s =
      bind (of_decoded (base64_url_decode s none))
        (λ bytes. or_error (T.loads (c_string bytes)) invalid_json)

  abbrev is_text : List ℕ → Option (List ℕ) → Bool
  is_text want none = false
  is_text want (some s) = str_eq s want

  abbrev is_parameter : Option (List ℕ) → Bool
  is_parameter none = false
  is_parameter (some s) = is_valid_parameter header_parameters s

  all_parameters : List J.json → Bool
  unfolding is_valid_parameter
  all_parameters [] = true
  all_parameters (claim ∷ claims) =
      let rest = all_parameters claims in is_parameter (J.string_value claim) && rest

  -- `json_array_size` is 0 for what is no array.
  abbrev crit_ok : Option (List J.json) → Bool
  crit_ok none = true
  crit_ok (some claims) = all_parameters claims

  -- The body of the loop of `_BIDValidateJWTHeader`.
  pub member_ok : List ℕ × J.json → Bool
  unfolding all_parameters
  member_ok (key, value) =
      if str_eq key (codes "cty")
      then is_text (codes "JWT") (J.string_value value)
      else if str_eq key (codes "typ")
      then is_text (codes "JWS") (J.string_value value)
      else if str_eq key (codes "crit")
      then crit_ok (J.array_items value)
      else true

  pub members_ok : List (List ℕ × J.json) → Bool
  unfolding member_ok
  members_ok [] = true
  members_ok (m ∷ ms) = let rest = members_ok ms in member_ok m && rest

  abbrev header_ok : Option (List (List ℕ × J.json)) → Bool
  header_ok none = false
  header_ok (some ms) = members_ok ms

  -- `_BIDValidateJWTHeader`
  pub validate_jwt_header : J.json → BidError
  unfolding members_ok
  validate_jwt_header header =
      if header_ok (T.object_items header) then ok else invalid_json_web_token

  -- The three parts of `_BIDParseJWT`.
  pub parse_parts : List ℕ → List ℕ → List ℕ → Parsed (Jwt J)
  unfolding validate_jwt_header decode_json
  parse_parts h p s = bind (decode_json h) (λ header.
      bind (passed (validate_jwt_header header)) (λ _. bind (decode_json p) (λ payload.
        bind (of_decoded (base64_url_decode s none)) (λ signature. parsed (record {
          enc_data = h ++ (b'.' ∷ (p ++ (b'.' ∷ s)));
          enc_length = length h + 1 + length p;
          header = header;
          payload = payload;
          signature = signature;
        })))))

  -- `_BIDParseJWT`; an empty string is no token and no error.
  unfoldable pub parse_jwt : List ℕ → Parsed (Option (Jwt J))
  unfolding parse_parts split_at
  parse_jwt [] = parsed none
  parse_jwt (c ∷ cs) = bind (or_error (split_at b'.' (c ∷ cs)) invalid_json_web_token) (λ (h, rest).
      bind (or_error (split_at b'.' rest) invalid_signature)
        (λ (p, s). bind (parse_parts h p s) (λ jwt. parsed (some jwt))))

  -- `_BIDMakeSignatureData`
  unfoldable pub make_signature_data : J.json → J.json → Result (List ℕ)
  unfolding encode_json
  make_signature_data header payload = do
    h ← encode_json header
    p ← encode_json payload
    good (h ++ (b'.' ∷ p))

-- The end of `_BIDMakeSignature`, with the signature that the algorithm made, if there is a key.
unfoldable pub append_signature : List ℕ → Option (List ℕ) → Result (List ℕ)
append_signature text none = good (text ++ (b'.' ∷ []))
append_signature text (some signature) = do
  s ← base64_url_encode signature
  good (text ++ (b'.' ∷ s))
