-- ===== src/Keys/Signed.antt =====
-- A token that is signed is verified.
use mathlib.Core.Path.{subst}
use libbrowserid.Prelude.{
  ℕ, ◌≡◌, ◌≢◌, ◌<◌, ◌^◌, refl, sym, ap, ◌∙◌, true, false, List, [], ◌∷◌, ◌++◌, Option, none, some,
  length, ◌==◌, All, IsByte, Bool-cases, inl, inr, arith, append-nil, if◌then◌else◌,
}
use libbrowserid.Status.{
  Result, good, bad, BidError, ok, ◌>>=◌, >>=_good, good-injective, some-injective,
  unknown_algorithm,
}
use libbrowserid.Base64.{codes, base64_url_encode}
use libbrowserid.Spn.{str_eq}
use libbrowserid.Spn.Strings.{str_eq_iff}
use libbrowserid.Json.{Jansson, IsJansson, IsAscii, string_of, put}
use libbrowserid.Json.Change.{distinct, put_elsewhere, put_required}
use libbrowserid.Jwt.{
  JsonText, Jwt, parsed, parse_jwt, validate_jwt_header, make_signature_data, append_signature,
}
use libbrowserid.Jwt.RoundTrip.{HasText, parse-make_jwt}
use libbrowserid.Keys.{
  Algorithm, find_in, chosen_or, choose, checked, check_with, check_named, verify_signature,
}
use libbrowserid.Keys.Make.{
  choose_any, chosen, header_or, with_chain, signed_header, unsigned, signed_text, sign_with,
  make_signature,
}

module _ (J : Jansson) (P : Algorithm J → Type 0) where
  -- The choice for a signature is the choice by the name of the algorithm.
  abbrev IsChoice :
      ℕ → List (Algorithm J) → Option J.json → BidError → Algorithm J × J.json → Type 0
  IsChoice n table keyset err (alg, key) =
      P alg × (choose J n table alg.alg_id keyset err ≡ some (good (alg, key)))

  choose_any-IsChoice :
      (n : ℕ) (table : List (Algorithm J)) (keyset : Option J.json) (c : Algorithm J × J.json)
      (err err' : BidError)
      → All P table
      → choose_any J n table keyset err ≡ some (good c)
      → IsChoice n table keyset err' c
  unfolding choose_any choose
  choose_any-IsChoice n [] keyset c err err' all h = absurd cc
  choose_any-IsChoice n (a ∷ table) keyset c err err' (here, all) h =
      from (find_in J n a keyset) refl h (λ e e'. choose_any-IsChoice n table keyset c e e' all)
    where
      by_name : List ℕ → Option (Result (Algorithm J × J.json))
      by_name name =
          if str_eq a.alg_id name
          then chosen_or J a (find_in J n a keyset) (choose J n table name keyset)
          else choose J n table name keyset err'

      from :
          (r : Option (Result J.json))
          → find_in J n a keyset ≡ r
          → chosen_or J a r (choose_any J n table keyset) ≡ some (good c)
          → ((e e' : BidError)
              → choose_any J n table keyset e ≡ some (good c)
              → IsChoice n table keyset e' c)
          → P c.0 × (by_name c.0.alg_id ≡ some (good c))
      from none q h ih = absurd cc
      from (some (good k)) q h ih =
          let same : (a, k) ≡ c = good-injective (let d : good (a, k) ≡ good c = cc in d) in
          subst (λ x. P x.0 × (by_name x.0.alg_id ≡ some (good x))) same
            (
              here,
              ap
                    (λ b.
                      if b
                      then chosen_or J a (find_in J n a keyset) (choose J n table a.alg_id keyset)
                      else choose J n table a.alg_id keyset err')
                    ((str_eq_iff a.alg_id a.alg_id).1 refl)
                  ∙ ap (λ r. chosen_or J a r (choose J n table a.alg_id keyset)) q,
            )
      from (some (bad e)) q h ih = (
        (ih e e h).0,
        elim (Bool-cases (str_eq a.alg_id c.0.alg_id)) [
          | inl same ↦ rw (same, q) (ih e e h).1
          | inr differ ↦ rw differ (ih e err' h).1
        ],
      )

-- What is signed of a token.
abbrev pub IsSignedText : {J : Jansson} → List ℕ → Jwt J → Type 0
IsSignedText d jwt = (r : List ℕ) × (jwt.enc_data ≡ d ++ r) × (jwt.enc_length ≡ length d)

-- What an algorithm of the table is relied on for: its name is text, and it verifies with the same
-- key what it signed, a signature that is not empty and not of gigabytes.
pub record Signs (J : Jansson) (alg : Algorithm J) : Type 0 where
  pub name : All IsAscii alg.alg_id
  pub made :
      (jwt : Jwt J) (key : J.json) (s : List ℕ)
      → alg.make jwt key ≡ good s
      → (0 < length s) × All IsByte s × (length s < 2 ^ 30)
  pub verified :
      (d : List ℕ) (jwt jwt' : Jwt J) (key : J.json)
      → IsSignedText d jwt
      → IsSignedText d jwt'
      → alg.make jwt key ≡ good jwt'.signature
      → alg.verify jwt' key ≡ (ok, true)

module _ (J : Jansson) (L : IsJansson J) where
  alg_other : codes "x5c" ≢ codes "alg"
  alg_other = distinct (codes "x5c") (codes "alg") refl

  with_chain-alg :
      (named h : J.json) (certs : Option J.json)
      → with_chain J named certs ≡ good h
      → J.object_get h (codes "alg") ≡ J.object_get named (codes "alg")
  with_chain-alg named h none q = ap (λ x. J.object_get x (codes "alg")) (sym (good-injective q))
  with_chain-alg named h (some chain) q =
      put_elsewhere J L named h (codes "x5c") (codes "alg") (some chain) true alg_other q

  -- The header names the algorithm.
  signed_header-alg :
      (header : Option J.json) (name : List ℕ) (certs : Option J.json) (h : J.json)
      → All IsAscii name
      → signed_header J header name certs ≡ good h
      → string_of J (J.object_get h (codes "alg")) ≡ some name
  unfolding signed_header
  signed_header-alg header name certs h ascii q =
      let (first, q₁, rest) = >>=_good (header_or J header) _ _ q in
      let (named, q₂, q₃) = >>=_good (put J first (codes "alg") (J.string name) true) _ _ rest in
      let (j, made, value) = L.string-ascii name ascii in
      ap (string_of J)
        (with_chain-alg named h certs q₃ ∙ put_required J L first named (codes "alg") _ q₂ ∙ made)
      ∙ value

module _ (J : Jansson) (T : JsonText J) (L : IsJansson J) where
  -- A signed token's parts.
  record IsMade (header : Option J.json) (payload : J.json) (certs : Option J.json)
      (c : Algorithm J × J.json) (text : List ℕ) (jwt : Jwt J) : Type 0 where
    d : List ℕ
    headed : signed_header J header c.0.alg_id certs ≡ good jwt.header
    data_text : make_signature_data J T jwt.header payload ≡ good d
    signed : c.0.make (unsigned J jwt.header payload d) c.1 ≡ good jwt.signature
    whole : append_signature d (some jwt.signature) ≡ good text

  signed-IsMade :
      (header : Option J.json) (payload : J.json) (certs : Option J.json) (c : Algorithm J × J.json)
      (text : List ℕ) (jwt : Jwt J)
      → (signed_header J header c.0.alg_id certs >>= λ h. signed_text J T h payload (some c))
        ≡ good (text, jwt)
      → IsMade header payload certs c text jwt
  unfolding signed_text
  signed-IsMade header payload certs (alg, key) text jwt q =
      let (h, q₁, rest) = >>=_good (signed_header J header alg.alg_id certs) _ _ q in
      let (d, q₂, rest') = >>=_good (make_signature_data J T h payload) _ _ rest in
      let (s, q₃, rest'') = >>=_good (alg.make (unsigned J h payload d) key) _ _ rest' in
      let (t, q₄, same) = >>=_good (append_signature d (some s)) _ _ rest'' in
      let pair = good-injective same in
      let e₁ : t ≡ text = ap (λ p. p.0) pair in
      let made : IsMade header payload certs (alg, key) t
          (record (unsigned J h payload d) { signature = s }) =
        record { d = d; headed = q₁; data_text = q₂; signed = q₃; whole = q₄ } in
      subst (λ p. IsMade header payload certs (alg, key) p.0 p.1) pair made

  sign_with-good :
      (header : Option J.json) (payload : J.json) (certs : Option J.json)
      (r : Option (Result (Algorithm J × J.json))) (text : List ℕ) (jwt : Jwt J)
      → sign_with J T header payload certs (chosen J r) ≡ some (good (text, jwt))
      → (c : Algorithm J × J.json) × (r ≡ some (good c)) × IsMade header payload certs c text jwt
  sign_with-good header payload certs none text jwt h = absurd cc
  sign_with-good header payload certs (some (bad e)) text jwt h = absurd cc
  sign_with-good header payload certs (some (good (alg, key))) text jwt h =
      ((alg, key), refl, signed-IsMade header payload certs (alg, key) text jwt (some-injective h))

  length_nonzero : (s : List ℕ) → 0 < length s → (length s == 0) ≡ false
  length_nonzero [] p = absurd (omega (arith, p))
  length_nonzero (x ∷ xs) p = ground arith

  append_signature-extends :
      (d s t : List ℕ) → append_signature d (some s) ≡ good t → (r : List ℕ) × (t ≡ d ++ r)
  unfolding append_signature
  append_signature-extends d s t h =
      let (x, encoded, same) = >>=_good (base64_url_encode s) _ _ h in
      (b'.' ∷ x, sym (good-injective same))

  -- The verification of a token with the algorithm and the key of the choice.
  verify_signature-chosen :
      (n : ℕ) (table : List (Algorithm J)) (keyset : Option J.json) (c : Algorithm J × J.json)
      (jwt : Jwt J)
      → 0 < length jwt.signature
      → string_of J (J.object_get jwt.header (codes "alg")) ≡ some c.0.alg_id
      → choose J n table c.0.alg_id keyset unknown_algorithm ≡ some (good c)
      → c.0.verify jwt c.1 ≡ (ok, true)
      → verify_signature J n table (some jwt) keyset ≡ some ok
  unfolding verify_signature
  verify_signature-chosen n table keyset (alg, key) jwt long name choice fine =
      rw (length_nonzero jwt.signature long) (
        ap (check_named J n table jwt keyset) name
        ∙ ap (check_with J jwt) choice
        ∙ ap (λ v. some (checked J v)) fine)

  -- A token that `_BIDMakeSignature` makes with a key set is parsed by `_BIDParseJWT` into the same
  -- header, payload and signature, and `_BIDVerifySignature` accepts it with the same key set: it
  -- finds by the name in the header the algorithm and the key of the signature. It holds if every
  -- algorithm of the table has a name of ASCII text and makes signatures of 1 to 2^30 - 1 bytes that it
  -- verifies with the same key, if the JSON library reads back the texts of the header that was made
  -- and of the payload, of fewer than 2^30 characters, and if that header is one that
  -- `_BIDValidateJWTHeader` accepts.
  pub verify-make_signature :
      (n : ℕ) (table : List (Algorithm J)) (header : Option J.json) (payload keyset : J.json)
      (certs : Option J.json) (text : List ℕ) (jwt : Jwt J) (hs ps : List ℕ)
      → All (Signs J) table
      → HasText J T jwt.header hs
      → HasText J T payload ps
      → validate_jwt_header J T jwt.header ≡ ok
      → make_signature J T n table header payload (some keyset) certs ≡ some (good (text, jwt))
      → (jwt' : Jwt J) × (parse_jwt J T text ≡ parsed (some jwt'))
        × (jwt'.header ≡ jwt.header)
        × (jwt'.payload ≡ payload)
        × (jwt'.signature ≡ jwt.signature)
        × (verify_signature J n table (some jwt') (some keyset) ≡ some ok)
  unfolding make_signature
  verify-make_signature n table header payload keyset certs text jwt hs ps signs hh hp valid h =
      let (c, chosen, made) =
        sign_with-good header payload certs (choose_any J n table (some keyset) unknown_algorithm)
          text jwt h in
      let (sign, choice) =
        choose_any-IsChoice J (Signs J) n table (some keyset) c unknown_algorithm unknown_algorithm
          signs chosen in
      let (long, bytes, short) = sign.made _ c.1 jwt.signature made.signed in
      let (d, t, data', whole', read) =
        parse-make_jwt J T jwt.header payload hs ps (some jwt.signature) hh hp valid bytes short in
      let same_d : d ≡ made.d = good-injective (sym data' ∙ made.data_text) in
      let same_t : t ≡ text =
        good-injective
          (sym whole' ∙ (ap (λ x. append_signature x (some jwt.signature)) same_d ∙ made.whole)) in
      let (rest, tail) = append_signature-extends d jwt.signature t whole' in
      (
        _,
        ap (parse_jwt J T) (sym same_t) ∙ read,
        refl,
        refl,
        refl,
        verify_signature-chosen n table (some keyset) c _ long
            (signed_header-alg J L header c.0.alg_id certs jwt.header sign.name made.headed) choice
            (sign.verified d (unsigned J jwt.header payload made.d) _ c.1
              ([], sym same_d ∙ sym (append-nil d), ap length (sym same_d)) (rest, tail, refl)
              made.signed),
      )
