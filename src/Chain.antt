-- ===== src/Chain.antt =====
-- libbrowserid/bid_verify.c: the issuer of an assertion's certificate, and the chain of its
-- certificates.
pub mod Signed
use libbrowserid.Prelude.{ℕ, Bool, true, false, List, [], ◌∷◌, Option, none, some, if◌then◌else◌}
use libbrowserid.Prelude.Int.{ℤ}
use libbrowserid.Status.{
  Result, good, bad, BidError, ok, missing_cert, missing_principal, unknown_principal_type,
  invalid_issuer, missing_issuer, assertion_not_yet_valid, cert_not_yet_valid, expired_assertion,
  expired_cert,
}
use libbrowserid.Base64.{codes}
use libbrowserid.Json.{Jansson, get, string_of}
use libbrowserid.Jwt.{Jwt, split_at}
use libbrowserid.Verify.{is_ok, validate_expiry}
use libbrowserid.Keys.{Algorithm, verify_signature}
use libbrowserid.Context.{Context}
use libbrowserid.Cache.{Operations}
use libbrowserid.Authority.{acquire_authority, get_authority_public_key, issuer_is_authoritative}

-- The codes that `_BIDValidateCertChain` replaces.
abbrev pub cert_error : BidError → BidError
cert_error assertion_not_yet_valid = cert_not_yet_valid
cert_error expired_assertion = expired_cert
cert_error e = e

-- A check, and the checks behind it; `none` is the end of the fuel of a search for a key.
abbrev pub and_then : Option BidError → Option BidError → Option BidError
and_then none rest = none
and_then (some e) rest = if is_ok e then rest else some e

abbrev pub mapped : Option BidError → Option BidError
mapped none = none
mapped (some e) = some (cert_error e)

module _ (J : Jansson) where
  -- `_BIDLeafCert` and `_BIDRootCert`; the arguments are the first certificate and the others.
  abbrev pub last_payload : Jwt J → List (Jwt J) → J.json
  last_payload cert [] = cert.payload
  last_payload cert (next ∷ certs) = last_payload next certs

  abbrev pub leaf_cert : List (Jwt J) → Option J.json
  leaf_cert [] = none
  leaf_cert (cert ∷ certs) = some (last_payload cert certs)

  abbrev pub root_cert : List (Jwt J) → Option J.json
  root_cert [] = none
  root_cert (cert ∷ certs) = some cert.payload

  abbrev domain_of : Option (List ℕ × List ℕ) → Result (List ℕ)
  domain_of none = bad invalid_issuer
  domain_of (some (_, domain)) = good domain

  abbrev host_authority : Option (List ℕ) → Result (List ℕ)
  host_authority none = bad invalid_issuer
  host_authority (some hostname) = good hostname

  abbrev mail_authority : Option (List ℕ) → Result (List ℕ)
  mail_authority none = bad unknown_principal_type
  mail_authority (some email) = domain_of (split_at b'@' email)

  -- The asserted authority: the host's name, or what follows the first @ of the address. The flag
  -- is BID_VERIFY_FLAG_RP.
  pub asserted_authority : Bool → Option J.json → Result (List ℕ)
  asserted_authority rp none = bad missing_principal
  asserted_authority true (some principal) =
      host_authority (string_of J (J.object_get principal (codes "hostname")))
  asserted_authority false (some principal) =
      mail_authority (string_of J (J.object_get principal (codes "email")))

module _ (J : Jansson) (S : Type 0) (ops : Operations J S) (retrieve : List ℕ → Result (J.json × ℤ))
    -- The fuel of the search for a key, and `_BIDJWTAlgorithms`.
    (n : ℕ) (table : List (Algorithm J)) where
  abbrev authoritative :
      Context → Option S → ℤ → Result (List ℕ) → Option (List ℕ) → BidError × Option S
  authoritative context cache now (bad e) issuer = (e, cache)
  authoritative context cache now (good authority) none = (missing_issuer, cache)
  authoritative context cache now (good authority) (some issuer) =
      issuer_is_authoritative J S ops retrieve context cache authority issuer now

  abbrev leaf_issuer : Context → Option S → ℤ → Bool → Option J.json → BidError × Option S
  leaf_issuer context cache now rp none = (missing_cert, cache)
  leaf_issuer context cache now rp (some leaf) =
      authoritative context cache now
        (asserted_authority J rp (J.object_get leaf (codes "principal")))
        (string_of J (J.object_get leaf (codes "iss")))

  -- `_BIDValidateCertIssuer`
  unfoldable pub validate_cert_issuer :
      Context → Option S → List (Jwt J) → ℤ → Bool → BidError × Option S
  unfolding asserted_authority
  validate_cert_issuer context cache certs now rp =
      leaf_issuer context cache now rp (leaf_cert J certs)

  -- The loop of `_BIDValidateCertChain`, with the key of the issuer of the first certificate.
  pub chain_loop : ℕ → ℤ → J.json → List (Jwt J) → Option BidError
  chain_loop skew now key [] = some ok
  chain_loop skew now key (cert ∷ certs) =
      let rest = chain_loop skew now cert.payload certs in
      and_then (some (validate_expiry J skew now (some cert.payload)))
        (and_then (verify_signature J n table (some cert) (some key)) rest)

  abbrev pub chain_with : Context → ℤ → List (Jwt J) → Result J.json → Option BidError
  chain_with context now certs (bad e) = some e
  chain_with context now certs (good key) = chain_loop context.skew now key certs

  abbrev pub chain_from :
      Context → ℤ → List (Jwt J) → Result J.json × Option S → Option BidError × Option S
  chain_from context now certs (bad e, cache) = (some (cert_error e), cache)
  chain_from context now certs (good authority, cache) =
      (mapped (chain_with context now certs (get_authority_public_key J authority)), cache)

  abbrev pub root_issuer :
      Context → Option S → ℤ → List (Jwt J) → Option (List ℕ) → Option BidError × Option S
  root_issuer context cache now certs none = (some missing_issuer, cache)
  root_issuer context cache now certs (some issuer) =
      chain_from context now certs (acquire_authority J S ops retrieve context cache issuer now)

  -- `_BIDValidateCertChain`
  unfoldable pub validate_cert_chain :
      Context → Option S → List (Jwt J) → ℤ → Option BidError × Option S
  unfolding chain_loop
  validate_cert_chain context cache [] now = (some missing_cert, cache)
  validate_cert_chain context cache (cert ∷ certs) now =
      root_issuer context cache now (cert ∷ certs)
        (string_of J (J.object_get cert.payload (codes "iss")))
