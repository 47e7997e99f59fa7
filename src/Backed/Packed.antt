-- ===== src/Backed/Packed.antt =====
-- What is packed, and what it is unpacked into.
use libbrowserid.Prelude.{
  ℕ, ◌≤◌, ◌≡◌, refl, ap, ◌∙◌, List, [], ◌∷◌, ◌++◌, append-nil, All, Option, none, some, length,
  arith,
}
use libbrowserid.Json.{Jansson}
use libbrowserid.Jwt.{JsonText, Jwt, parsed, parse_jwt}
use libbrowserid.Backed.{max_certs, tilde_parts, unpack_loop, unpack_backed_assertion}
use libbrowserid.Backed.Unpack.{
  NoTilde, join, parts_of, tilde_parts-join, Parses, no_more, next, unpack_loop-parts_of,
}
use libbrowserid.Status.{good}
use libbrowserid.Keys.{Algorithm}
use libbrowserid.Keys.Make.{make_signature}
use libbrowserid.Backed.Pack.{
  certificate_texts, packed_text, Unsigned, text_of, add_text, packed, sign_certificates,
  pack_backed_assertion,
}

-- A list that is not empty without its last element, and the last element.
abbrev pub init {ℓ} : {A : Type ℓ} → A → List A → List A
init x [] = []
init x (y ∷ xs) = x ∷ init y xs

abbrev pub last {ℓ} : {A : Type ℓ} → A → List A → A
last x [] = x
last x (y ∷ xs) = last y xs

init-NoTilde :
    (a : List ℕ) (ts : List (List ℕ))
    → All NoTilde a
    → All (All NoTilde) ts
    → All (All NoTilde) (init a ts) × All NoTilde (last a ts)
init-NoTilde a [] h hs = (tt, h)
init-NoTilde a (t ∷ ts) h (h', hs) =
    let (front, back) = init-NoTilde t ts h' hs in ((h, front), back)

module _ (J : Jansson) (T : JsonText J) where
  -- A text that is parsed has characters.
  certificate_texts-cons :
      (t : List ℕ) (ts : List (List ℕ)) (c : Jwt J)
      → parse_jwt J T t ≡ parsed (some c)
      → certificate_texts (t ∷ ts) ≡ b'~' ∷ (t ++ certificate_texts ts)
  unfolding parse_jwt
  certificate_texts-cons [] ts c h = absurd cc
  certificate_texts-cons (x ∷ t) ts c h = refl

  join-init :
      (a : List ℕ) (ts : List (List ℕ)) (cs : List (Jwt J))
      → Parses J T ts cs
      → a ++ certificate_texts ts ≡ join (init a ts) (last a ts)
  join-init a _ _ no_more = append-nil a
  join-init a _ _ (next {t = t} {c = c} {ts = ts} {cs = cs} h hs) =
      ap (◌++◌ a) (certificate_texts-cons t ts c h ∙ ap (◌∷◌ b'~') (join-init t ts cs hs))

  init-Parses :
      (a : List ℕ) (c : Jwt J) (ts : List (List ℕ)) (cs : List (Jwt J))
      → parse_jwt J T a ≡ parsed (some c)
      → Parses J T ts cs
      → Parses J T (init a ts) (init c cs) × (parse_jwt J T (last a ts) ≡ parsed (some (last c cs)))
  init-Parses a c _ _ h no_more = (no_more, h)
  init-Parses a c _ _ h (next {t = t} {c = d} {ts = ts} {cs = cs} h' hs) =
      let (front, back) = init-Parses t d ts cs h' hs in (next h front, back)

  length-init : (c : Jwt J) (cs : List (Jwt J)) → length (init c cs) ≡ length cs
  length-init c [] = refl
  length-init c (d ∷ cs) = omega (arith, length-init d cs)

  -- The part in front of the leading tilde is empty, and is no certificate.
  unpack_loop_leading :
      (enc : List ℕ) (ts : List (List ℕ)) (t : List ℕ)
      → unpack_loop J T enc ([] ∷ parts_of ts t) [] ≡ unpack_loop J T enc (parts_of ts t) []
  unfolding unpack_loop parse_jwt
  unpack_loop_leading enc [] t = refl
  unpack_loop_leading enc (u ∷ ts) t = refl

  unpack-packed_text :
      (a : List ℕ) (ts : List (List ℕ)) (assertion : Jwt J) (cs : List (Jwt J))
      → All NoTilde a
      → All (All NoTilde) ts
      → parse_jwt J T a ≡ parsed (some assertion)
      → Parses J T ts cs
      → length cs ≤ max_certs
      → unpack_backed_assertion J T (some (packed_text a ts))
        ≡ parsed (record {
          enc_data = packed_text a ts;
          assertion = last assertion cs;
          certificates = init assertion cs;
        })
  unfolding unpack_backed_assertion
  unpack-packed_text a ts assertion cs h hs p ps l =
      let text = packed_text a ts in
      let (front, back) = init-NoTilde a ts h hs in
      let (fronts, backs) = init-Parses a assertion ts cs p ps in
      let parts : tilde_parts text ≡ [] ∷ parts_of (init a ts) (last a ts) =
        ap (λ s. tilde_parts (b'~' ∷ s)) (join-init a ts cs ps)
        ∙ (unfold tilde_parts in refl)
        ∙ ap (◌∷◌ []) (tilde_parts-join (init a ts) (last a ts) front back) in
      ap (λ x. unpack_loop J T text x []) parts
      ∙ unpack_loop_leading text (init a ts) (last a ts)
      ∙ unpack_loop-parts_of J T text (init a ts) (last a ts) [] (init assertion cs)
          (last assertion cs) fronts backs (omega (arith, l, length-init assertion cs))

module _ (J : Jansson) (T : JsonText J) (n : ℕ) (table : List (Algorithm J))
    (keyset : Option J.json) where
  -- The texts that tokens are signed into.
  pub data SignedAs : List (Unsigned J T n table) → List (List ℕ) → Type 0 where
    none_left : SignedAs [] []
    one_more :
        (header : Option J.json) (payload : J.json) (t : List ℕ) (jwt : Jwt J)
        (certs : List (Unsigned J T n table)) (ts : List (List ℕ))
        → make_signature J T n table header payload keyset none ≡ some (good (t, jwt))
        → SignedAs certs ts
        → SignedAs ((header, payload) ∷ certs) (t ∷ ts)

  sign_certificates-SignedAs :
      (certs : List (Unsigned J T n table)) (ts : List (List ℕ))
      → SignedAs certs ts
      → sign_certificates J T n table keyset certs ≡ some (good ts)
  unfolding sign_certificates
  sign_certificates-SignedAs _ _ none_left = refl
  sign_certificates-SignedAs _ _ (one_more header payload t jwt certs ts h hs) =
      ap
        (λ r.
          text_of J T n table r
            (λ text. add_text J T n table text (sign_certificates J T n table keyset certs)))
        h
      ∙ ap (add_text J T n table t) (sign_certificates-SignedAs certs ts hs)

  -- `_BIDPackBackedAssertion` of an assertion and up to ten certificates succeeds where
  -- `_BIDMakeSignature` does for each of them. If `_BIDParseJWT` parses the texts, none with a
  -- tilde, `_BIDUnpackBackedAssertion` unpacks what was packed into other roles: the last text is the
  -- assertion, and the texts before it, the assertion's the first of them, are the certificates.
  -- Only without certificates it is the assertion that was packed.
  pub unpack-pack_backed_assertion :
      (header : Option J.json) (payload : J.json) (chain : Option J.json)
      (certs : List (Unsigned J T n table)) (a : List ℕ) (made : Jwt J) (ts : List (List ℕ))
      (assertion : Jwt J) (cs : List (Jwt J))
      → make_signature J T n table header payload keyset chain ≡ some (good (a, made))
      → SignedAs certs ts
      → All NoTilde a
      → All (All NoTilde) ts
      → parse_jwt J T a ≡ parsed (some assertion)
      → Parses J T ts cs
      → length cs ≤ max_certs
      → (text : List ℕ) × (pack_backed_assertion J T n table (header, payload) certs keyset chain
          ≡ some (good text))
        × (unpack_backed_assertion J T (some text)
            ≡ parsed (record {
              enc_data = text;
              assertion = last assertion cs;
              certificates = init assertion cs;
            }))
  unfolding pack_backed_assertion
  unpack-pack_backed_assertion header payload chain certs a made ts assertion cs s ss h hs p ps l =
      (
        packed_text a ts,
        ap
              (λ r. packed J T n table (
                text_of J T n table r
                  (λ text. add_text J T n table text (sign_certificates J T n table keyset certs))))
              s
            ∙ ap (λ r. packed J T n table (add_text J T n table a r))
                (sign_certificates-SignedAs certs ts ss),
        unpack-packed_text J T a ts assertion cs h hs p ps l,
      )
