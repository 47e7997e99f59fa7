-- ===== src/Backed.antt =====
-- libbrowserid/bid_util.c: a backed assertion, the texts of certificates and of an assertion with a
-- tilde between them.
pub mod Unpack
pub mod Pack
pub mod Packed
mod Tests
use libbrowserid.Prelude.{
  ℕ, ◌+◌, Bool, true, false, List, [], ◌∷◌, ◌++◌, Option, none, some, length, leb, ◌==◌,
  if◌then◌else◌,
}
use libbrowserid.Status.{invalid_assertion, too_many_certs}
use libbrowserid.Json.{Jansson}
use libbrowserid.Jwt.{JsonText, Jwt, Parsed, parsed, rejected, bind, parse_jwt}

-- `BID_MAX_CERTS`
abbrev pub max_certs : ℕ
max_certs = 10

-- `BIDBackedAssertion`
pub record BackedAssertion (J : Jansson) : Type 0 where
  pub enc_data : List ℕ
  pub assertion : Jwt J
  pub certificates : List (Jwt J)

abbrev add_first : ℕ → List (List ℕ) → List (List ℕ)
add_first c [] = (c ∷ []) ∷ []
add_first c (part ∷ parts) = (c ∷ part) ∷ parts

-- What the calls of `strchr(p, '~')` split the string into; there is at least one part.
unfoldable pub tilde_parts : List ℕ → List (List ℕ)
tilde_parts [] = [] ∷ []
tilde_parts (c ∷ s) = let rest = tilde_parts s in if c == b'~' then [] ∷ rest else add_first c rest

module _ (J : Jansson) (T : JsonText J) where
  abbrev add_certificate : List (Jwt J) → Option (Jwt J) → List (Jwt J)
  add_certificate certs none = certs
  add_certificate certs (some c) = certs ++ (c ∷ [])

  abbrev with_assertion : List ℕ → List (Jwt J) → Option (Jwt J) → Parsed (BackedAssertion J)
  with_assertion enc certs none = rejected invalid_assertion
  with_assertion enc certs (some a) =
      parsed (record { enc_data = enc; assertion = a; certificates = certs })

  -- The loop of `_BIDUnpackBackedAssertion` over the parts, with the certificates so far: the last
  -- part is the assertion. A part without characters is no certificate.
  unfoldable pub unpack_loop : List ℕ → List (List ℕ) → List (Jwt J) → Parsed (BackedAssertion J)
  unpack_loop enc [] certs = rejected invalid_assertion
  unpack_loop enc (p ∷ []) certs = bind (parse_jwt J T p) (with_assertion enc certs)
  unpack_loop enc (p ∷ q ∷ parts) certs =
      if leb max_certs (length certs)
      then rejected too_many_certs
      else bind (parse_jwt J T p) (λ cert. unpack_loop enc (q ∷ parts) (add_certificate certs cert))

  -- `_BIDUnpackBackedAssertion`
  unfoldable pub unpack_backed_assertion : Option (List ℕ) → Parsed (BackedAssertion J)
  unfolding unpack_loop tilde_parts
  unpack_backed_assertion none = rejected invalid_assertion
  unpack_backed_assertion (some text) = unpack_loop text (tilde_parts text) []
