-- ===== src/Keys.antt =====
-- The choice of a key and an algorithm, and the verification of a token's signature:
-- libbrowserid/bid_crypto.c (`_BIDKeyMatchesP`, `_BIDFindKeyInKeyset`) and bid_jwt.c
-- (`_BIDVerifySignature`). What an algorithm of the table does is a parameter.
pub mod Verified
pub mod Depth
pub mod Make
pub mod Signed
mod Tests
use libbrowserid.Prelude.{
  ℕ, zero, suc, ◌^◌, Bool, true, false, not, ◌&&◌, List, [], ◌∷◌, Option, none, some, length, ◌==◌,
  if◌then◌else◌,
}
use libbrowserid.Status.{
  Result, good, bad, BidError, ok, ◌>>=◌, invalid_keyset, no_key, invalid_parameter,
  missing_signature, missing_algorithm, unknown_algorithm, invalid_signature,
}
use libbrowserid.Base64.{codes}
use libbrowserid.Spn.{str_eq}
use libbrowserid.Json.{Jansson, get, string_of}
use libbrowserid.Jwt.{Jwt}
use libbrowserid.Verify.{is_ok}

-- An entry of `_BIDJWTAlgorithms`: the names, the key size (0 for any) and the functions.
pub record Algorithm (J : Jansson) : Type 0 where
  pub alg_id : List ℕ
  pub key_alg_id : List ℕ
  pub key_bits : ℕ
  pub key_size : J.json → Result ℕ
  -- The signature of a token whose text is the part to sign.
  pub make : Jwt J → J.json → Result (List ℕ)
  -- The status, and `*pbSignatureValid`.
  pub verify : Jwt J → J.json → BidError × Bool

-- `strncmp(a, b, 2) == 0`
abbrev pub same_start : List ℕ → List ℕ → Bool
same_start (a ∷ b ∷ _) (c ∷ d ∷ _) = (a == c) && (b == d)
same_start (a ∷ []) (c ∷ []) = a == c
same_start [] [] = true
same_start _ _ = false

module _ (J : Jansson) where
  abbrev first_text : Option (List ℕ) → Option (List ℕ) → Option (List ℕ)
  first_text none t = t
  first_text (some s) t = some s

  -- The name of a key's algorithm; a secret key has none of its own.
  unfoldable pub key_algorithm : J.json → Option (List ℕ)
  key_algorithm jwk = elim (J.object_get jwk (codes "secret-key")) [
    | some _ ↦ some (codes "HS")
    | none ↦
        first_text (string_of J (J.object_get jwk (codes "algorithm")))
          (string_of J (J.object_get jwk (codes "alg")))
  ]

  abbrev size_fits : ℕ → Result ℕ → Bool
  size_fits bits (good n) = n == bits
  size_fits bits (bad e) = false

  abbrev name_fits : Algorithm J → Option (List ℕ) → Bool
  name_fits alg none = false
  name_fits alg (some name) = same_start name alg.key_alg_id

  -- `_BIDKeyMatchesP`, of a key that is not NULL.
  unfoldable pub key_matches : Algorithm J → J.json → Bool
  unfolding key_algorithm
  key_matches alg jwk =
      name_fits alg (key_algorithm jwk)
      && (if alg.key_bits == 0 then true else size_fits alg.key_bits (alg.key_size jwk))

  abbrev found_or :
      Option (Result J.json) → (BidError → Option (Result J.json)) → Option (Result J.json)
  found_or none rest = none
  found_or (some (good key)) rest = some (good key)
  found_or (some (bad e)) rest = rest e

  -- The loop over the keys of a set, with the error so far; `none` is the fuel's end.
  unfoldable pub find_first :
      (J.json → Option (Result J.json)) → List J.json → BidError → Option (Result J.json)
  find_first find [] err = some (bad err)
  find_first find (k ∷ ks) err = found_or (find k) (find_first find ks)

  abbrev or_self : Option J.json → J.json → J.json
  or_self none keyset = keyset
  or_self (some jwk) keyset = jwk

  abbrev single_key : Algorithm J → J.json → Option (Result J.json)
  single_key alg jwk = some (if key_matches alg jwk then good jwk else bad invalid_keyset)

  abbrev items_or_none : Option (List J.json) → List J.json
  items_or_none none = []
  items_or_none (some vs) = vs

  abbrev find_among :
      Algorithm J
      → (J.json → Option (Result J.json))
      → J.json
      → Option J.json
      → Option (Result J.json)
  find_among alg find keyset none =
      single_key alg (or_self (J.object_get keyset (codes "public-key")) keyset)
  find_among alg find keyset (some keys) =
      find_first find (items_or_none (J.array_items keys)) no_key

  -- `_BIDFindKeyInKeyset`, whose recursion goes into the keys of a set, on fuel.
  unfoldable pub find_key : ℕ → Algorithm J → J.json → Option (Result J.json)
  unfolding find_first key_matches
  find_key zero alg keyset = none
  find_key (suc n) alg keyset =
      find_among alg (find_key n alg) keyset (J.object_get keyset (codes "keys"))

  abbrev pub find_in : ℕ → Algorithm J → Option J.json → Option (Result J.json)
  find_in n alg none = some (bad invalid_keyset)
  find_in n alg (some keyset) = find_key n alg keyset

  abbrev pub chosen_or :
      Algorithm J
      → Option (Result J.json)
      → (BidError → Option (Result (Algorithm J × J.json)))
      → Option (Result (Algorithm J × J.json))
  chosen_or alg none rest = none
  chosen_or alg (some (good key)) rest = some (good (alg, key))
  chosen_or alg (some (bad e)) rest = rest e

  -- The loop of `_BIDVerifySignature` over the table of algorithms.
  unfoldable pub choose :
      ℕ
      → List (Algorithm J)
      → List ℕ
      → Option J.json
      → BidError
      → Option (Result (Algorithm J × J.json))
  choose n [] name keyset err = some (bad err)
  choose n (alg ∷ algs) name keyset err =
      let rest = choose n algs name keyset in
      if str_eq alg.alg_id name then chosen_or alg (find_in n alg keyset) rest else rest err

  abbrev checked : BidError × Bool → BidError
  checked (err, valid) = if is_ok err then (if valid then ok else invalid_signature) else err

  abbrev check_with : Jwt J → Option (Result (Algorithm J × J.json)) → Option BidError
  check_with jwt none = none
  check_with jwt (some (bad e)) = some e
  check_with jwt (some (good (alg, key))) = some (checked (alg.verify jwt key))

  abbrev check_named :
      ℕ → List (Algorithm J) → Jwt J → Option J.json → Option (List ℕ) → Option BidError
  check_named n table jwt keyset none = some missing_algorithm
  check_named n table jwt keyset (some name) =
      check_with jwt (choose n table name keyset unknown_algorithm)

  -- `_BIDVerifySignature`, with the table `_BIDJWTAlgorithms`.
  unfoldable pub verify_signature :
      ℕ → List (Algorithm J) → Option (Jwt J) → Option J.json → Option BidError
  unfolding choose find_key
  verify_signature n table none keyset = some invalid_parameter
  verify_signature n table (some jwt) keyset =
      if length jwt.signature == 0
      then some missing_signature
      else check_named n table jwt keyset (string_of J (J.object_get jwt.header (codes "alg")))
