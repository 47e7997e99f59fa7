-- ===== src/Keys/Tests.antt =====
-- Runs of the key search and of the verification, with a table of one algorithm.
use mathlib.Core.Path.{subst}
use libbrowserid.Prelude.{
  ℕ, suc, ◌^◌, none, sym, IsByte, length, ◌+◌, ◌<◌, ◌≤◌, ◌≡◌, refl, ap, List, [], ◌∷◌, some, All,
  Bool-cases, inl, inr, arith,
}
use libbrowserid.Status.{
  good, good-injective, ok, invalid_signature, unknown_algorithm, missing_signature,
}
use libbrowserid.Base64.{codes, base64_url_encode}
use libbrowserid.Spn.{str_eq}
use libbrowserid.Json.Model.{
  model, model-IsJansson, Value, text, number, items, members, Values, nil, cons, Members, end,
  member, lookup, to_list,
}
use libbrowserid.Jwt.{Jwt, parsed, parse_jwt, make_signature_data, encode_json, append_signature}
use libbrowserid.Jwt.Texts.{header-HasText, header_valid, payload-HasText}
use libbrowserid.Jwt.Model.{header, payload, header_text, payload_text, two_texts, token}
use libbrowserid.Keys.Make.{make_signature}
use libbrowserid.Keys.Signed.{Signs, verify-make_signature}
use libbrowserid.Json.{json_object_set}
use libbrowserid.Keys.{Algorithm, find_key, verify_signature}
use libbrowserid.Keys.Verified.{IsVerified, verify_signature-IsVerified}
use libbrowserid.Keys.Depth.{HasDepth, Answers, verify_signature-Answers}

mutual
  size : Value → ℕ
  size (text s) = 0
  size (number z) = 0
  size (items vs) = suc (size_values vs)
  size (members ms) = suc (size_members ms)

  size_values : Values → ℕ
  size_values nil = 0
  size_values (cons v vs) = size v + size_values vs + 1

  size_members : Members → ℕ
  size_members end = 0
  size_members (member k v ms) = size v + size_members ms + 1

lookup-size :
    (k : List ℕ) (ms : Members) (v : Value) → lookup k ms ≡ some v → size v ≤ size_members ms
unfolding size
lookup-size k end v e = cc
lookup-size k (member l w ms) v e = elim (Bool-cases (str_eq k l)) [
  | inl same ↦ let c : w ≡ v = (let d = rw same at e in cc) in omega (arith, ap size c)
  | inr other ↦ omega (arith, lookup-size k ms v (rw other at e))
]

All-size : (vs : Values) (n : ℕ) → size_values vs ≤ n → All (λ v. size v < suc n) (to_list vs)
unfolding size
All-size nil n h = tt
All-size (cons v vs) n h = (omega arith, All-size vs n (omega arith))

keys-size :
    (keyset keys : Value) (vs : List Value)
    → model.object_get keyset (codes "keys") ≡ some keys
    → model.array_items keys ≡ some vs
    → All (λ v. size v < size keyset) vs
unfolding size
keys-size (members ms) (items xs) vs e q =
    let l = lookup-size (codes "keys") ms (items xs) e in
    let same : to_list xs ≡ vs = cc in
    subst (All (λ v. size v < suc (size_members ms))) same
      (All-size xs (size_members ms) (omega arith))
keys-size (members ms) (text s) vs e q = cc
keys-size (members ms) (number s) vs e q = cc
keys-size (members ms) (members s) vs e q = cc
keys-size (text s) keys vs e q = cc
keys-size (number s) keys vs e q = cc
keys-size (items s) keys vs e q = cc

abbrev model_depth : HasDepth model
model_depth = record { depth = size; keys-depth = keys-size }

abbrev rs256 : Algorithm model
rs256 = record {
  alg_id = codes "RS256";
  key_alg_id = codes "RSA";
  key_bits = 0;
  key_size = λ j. good 0;
  make = λ jwt key. good (codes "foo");
  verify = λ jwt key. (ok, str_eq jwt.signature (codes "foo"));
}

abbrev rsa_key : Value
rsa_key = members (member (codes "algorithm") (text (codes "RS")) end)

abbrev key_set : Value
key_set = members (member (codes "keys") (items (cons rsa_key nil)) end)

abbrev signed : Jwt model
signed = record {
  enc_data = codes "eyJhbGciOiJSUzI1NiJ9.e30.Zm9v";
  enc_length = 24;
  header = header;
  payload = payload;
  signature = codes "foo";
}

verifies : verify_signature model 8 (rs256 ∷ []) (some signed) (some key_set) ≡ some ok
unfolding verify_signature
verifies = refl

others :
    (verify_signature model 8 [] (some signed) (some key_set) ≡ some unknown_algorithm)
    × (verify_signature model 8
          (rs256 ∷ [])
          (some (record signed { signature = [] }))
          (some key_set)
        ≡ some missing_signature)
    × (verify_signature model 8
          (rs256 ∷ [])
          (some (record signed { signature = codes "x" }))
          (some key_set)
        ≡ some invalid_signature)
unfolding verify_signature
others = (refl, refl, refl)

verify_signature-IsVerified_example : IsVerified model 8 (rs256 ∷ []) signed (some key_set)
verify_signature-IsVerified_example =
    verify_signature-IsVerified model 8 (rs256 ∷ []) signed (some key_set) verifies

verify_signature-Answers_example :
    Answers model model_depth (verify_signature model 8 (rs256 ∷ []) (some signed) (some key_set))
unfolding size
verify_signature-Answers_example =
    verify_signature-Answers model model_depth 8 (rs256 ∷ []) (some signed) (some key_set)
      (omega arith)

rs256-made :
    (s : List ℕ) → good (codes "foo") ≡ good s → (0 < length s) × All IsByte s × (length s < 2 ^ 30)
rs256-made s h =
    subst (λ x. (0 < length x) × All IsByte x × (length x < 2 ^ 30)) (good-injective h)
      (omega arith, (omega arith, (omega arith, (omega arith, tt))), omega arith)

rs256-Signs : Signs model rs256
rs256-Signs = record {
  name = (
    (omega arith, omega arith),
    (
      (omega arith, omega arith),
      ((omega arith, omega arith), ((omega arith, omega arith), ((omega arith, omega arith), tt))),
    ),
  );
  made = λ jwt key s h. rs256-made s h;
  verified =
      λ d jwt jwt' key t t' h. ap (λ s. (ok, str_eq s (codes "foo"))) (sym (good-injective h));
}

-- The header that is made, and the token.
makes :
    make_signature model two_texts 8 (rs256 ∷ []) none payload (some key_set) none
    ≡ some (good (token, record signed { enc_data = codes "eyJhbGciOiJSUzI1NiJ9.e30" }))
unfolding make_signature base64_url_encode find_key json_object_set make_signature_data encode_json
    append_signature
makes = refl

verify-make_signature_example :
    (jwt' : Jwt model) × (parse_jwt model two_texts token ≡ parsed (some jwt'))
    × (jwt'.header ≡ header)
    × (jwt'.payload ≡ payload)
    × (jwt'.signature ≡ codes "foo")
    × (verify_signature model 8 (rs256 ∷ []) (some jwt') (some key_set) ≡ some ok)
verify-make_signature_example =
    verify-make_signature model two_texts model-IsJansson 8 (rs256 ∷ []) none payload key_set none
      token (record signed { enc_data = codes "eyJhbGciOiJSUzI1NiJ9.e30" }) header_text payload_text
      (rs256-Signs, tt) header-HasText payload-HasText header_valid makes
