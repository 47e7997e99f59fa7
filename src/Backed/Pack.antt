-- ===== src/Backed/Pack.antt =====
-- libbrowserid/bid_util.c: `_BIDPackBackedAssertion`, with the table of algorithms as a parameter.
use libbrowserid.Prelude.{ℕ, List, [], ◌∷◌, ◌++◌, Option, none, some}
use libbrowserid.Status.{Result, good, bad}
use libbrowserid.Json.{Jansson}
use libbrowserid.Jwt.{JsonText, Jwt}
use libbrowserid.Keys.{Algorithm}
use libbrowserid.Keys.Make.{make_signature}

-- The texts of certificates, each behind a tilde, up to one without characters.
abbrev pub certificate_texts : List (List ℕ) → List ℕ
certificate_texts [] = []
certificate_texts ([] ∷ ts) = []
certificate_texts ((c ∷ t) ∷ ts) = b'~' ∷ ((c ∷ t) ++ certificate_texts ts)

-- The text of an assertion and of certificates.
abbrev pub packed_text : List ℕ → List (List ℕ) → List ℕ
packed_text a ts = b'~' ∷ (a ++ certificate_texts ts)

module _ (J : Jansson) (T : JsonText J) (n : ℕ) (table : List (Algorithm J)) where
  -- The header, if there is one, and the payload of a token that is to be signed.
  abbrev pub Unsigned : Type 0
  Unsigned = Option J.json × J.json

  abbrev pub text_of :
      Option (Result (List ℕ × Jwt J))
      → (List ℕ → Option (Result (List (List ℕ))))
      → Option (Result (List (List ℕ)))
  text_of none rest = none
  text_of (some (bad e)) rest = some (bad e)
  text_of (some (good (text, jwt))) rest = rest text

  abbrev pub add_text : List ℕ → Option (Result (List (List ℕ))) → Option (Result (List (List ℕ)))
  add_text text none = none
  add_text text (some (bad e)) = some (bad e)
  add_text text (some (good ts)) = some (good (text ∷ ts))

  -- The loop that signs the certificates.
  unfoldable pub sign_certificates : Option J.json → List Unsigned → Option (Result (List (List ℕ)))
  sign_certificates keyset [] = some (good [])
  sign_certificates keyset ((header, payload) ∷ certs) =
      let rest = sign_certificates keyset certs in
      text_of (make_signature J T n table header payload keyset none) (λ text. add_text text rest)

  abbrev pub packed : Option (Result (List (List ℕ))) → Option (Result (List ℕ))
  packed none = none
  packed (some (bad e)) = some (bad e)
  packed (some (good [])) = some (good [])
  packed (some (good (a ∷ ts))) = some (good (packed_text a ts))

  -- `_BIDPackBackedAssertion` of an assertion with its certificates, and the key set and the chain.
  unfoldable pub pack_backed_assertion :
      Unsigned → List Unsigned → Option J.json → Option J.json → Option (Result (List ℕ))
  unfolding sign_certificates
  pack_backed_assertion (header, payload) certs keyset chain = packed (
      text_of (make_signature J T n table header payload keyset chain)
        (λ text. add_text text (sign_certificates keyset certs)))
