-- ===== src/Chain/Signed.antt =====
-- The chains of certificates that `_BIDValidateCertChain` accepts.
use libbrowserid.Prelude.{ℕ, ◌≡◌, ◌≢◌, refl, ap, ◌∙◌, List, [], ◌∷◌, Option, none, some}
use libbrowserid.Prelude.Int.{ℤ}
use libbrowserid.Status.{Result, good, bad, BidError, ok, some-injective}
use libbrowserid.Base64.{codes}
use libbrowserid.Json.{Jansson, string_of}
use libbrowserid.Jwt.{Jwt}
use libbrowserid.Verify.{validate_expiry}
use libbrowserid.Verify.Expiry.{IsCurrent, validate_expiry-IsCurrent}
use libbrowserid.Keys.{Algorithm, verify_signature}
use libbrowserid.Keys.Verified.{IsVerified, verify_signature-IsVerified}
use libbrowserid.Context.{Context}
use libbrowserid.Cache.{Operations}
use libbrowserid.Authority.{acquire_authority, key_of, get_authority_public_key}
use libbrowserid.Chain.{
  cert_error, and_then, chain_loop, mapped, chain_with, chain_from, root_issuer,
  validate_cert_chain,
}

pub and_then-ok : (a b : Option BidError) → and_then a b ≡ some ok → (a ≡ some ok) × (b ≡ some ok)
and_then-ok none b h = absurd cc
and_then-ok (some ok) b h = (refl, h)
and_then-ok (some e) b h = absurd cc

cert_error-ok : (e : BidError) → cert_error e ≡ ok → e ≡ ok
cert_error-ok ok h = refl
cert_error-ok e h = absurd cc

mapped-ok : (r : Option BidError) → mapped r ≡ some ok → r ≡ some ok
mapped-ok none h = absurd cc
mapped-ok (some e) h = ap some (cert_error-ok e (some-injective h))

module _ (J : Jansson) (S : Type 0) (ops : Operations J S) (retrieve : List ℕ → Result (J.json × ℤ))
    (n : ℕ) (table : List (Algorithm J)) where
  -- Each certificate is current, and signed with the key of the one before it.
  abbrev pub SignedBy : ℕ → ℤ → J.json → List (Jwt J) → Type 0
  SignedBy skew now key [] = Unit
  SignedBy skew now key (cert ∷ certs) =
      IsCurrent J skew now (some cert.payload)
      × IsVerified J n table cert (some key)
      × SignedBy skew now cert.payload certs

  chain_loop-SignedBy :
      (skew : ℕ) (now : ℤ) (key : J.json) (certs : List (Jwt J))
      → chain_loop J S ops retrieve n table skew now key certs ≡ some ok
      → SignedBy skew now key certs
  unfolding chain_loop
  chain_loop-SignedBy skew now key [] h = tt
  chain_loop-SignedBy skew now key (cert ∷ certs) h =
      let (current, h₁) = and_then-ok (some (validate_expiry J skew now (some cert.payload))) _ h in
      let (signed, h₂) = and_then-ok (verify_signature J n table (some cert) (some key)) _ h₁ in
      (
        (validate_expiry-IsCurrent J skew now (some cert.payload)).0 (some-injective current),
        verify_signature-IsVerified J n table cert (some key) signed,
        chain_loop-SignedBy skew now cert.payload certs h₂,
      )

  -- The document of the issuer of the first certificate is had and has a key; the first certificate
  -- is signed with it, and each one behind it with the key of the one before. All are current.
  pub record HasChain (context : Context) (cache : Option S) (now : ℤ) (root : Jwt J)
      (certs : List (Jwt J)) : Type 0 where
    pub issuer : List ℕ
    pub named : string_of J (J.object_get root.payload (codes "iss")) ≡ some issuer
    pub authority : J.json
    pub acquired : (acquire_authority J S ops retrieve context cache issuer now).0 ≡ good authority
    pub signed : SignedBy context.skew now authority (root ∷ certs)

  -- The chains that `_BIDValidateCertChain` accepts, whatever the number of certificates, are those
  -- whose first certificate is signed by the authority that it names as its issuer, whose document
  -- has to have a public key, and whose further certificates are each signed with the key of the
  -- certificate before; every certificate is within its times. A document that is not had is an
  -- error.
  pub validate_cert_chain-HasChain :
      (context : Context) (cache : Option S) (now : ℤ) (root : Jwt J) (certs : List (Jwt J))
      → ((host : List ℕ) (c : Option S)
          → (acquire_authority J S ops retrieve context c host now).0 ≢ bad ok)
      → (validate_cert_chain J S ops retrieve n table context cache (root ∷ certs) now).0 ≡ some ok
      → HasChain context cache now root certs
  unfolding validate_cert_chain get_authority_public_key
  validate_cert_chain-HasChain context cache now root certs fails h =
      by_issuer (string_of J (J.object_get root.payload (codes "iss"))) refl h
    where
      by_key :
          (a : J.json) (k : Option J.json)
          → chain_with J S ops retrieve n table context now (root ∷ certs) (key_of J a k) ≡ some ok
          → SignedBy context.skew now a (root ∷ certs)
      by_key a none h = absurd cc
      by_key a (some _) h = chain_loop-SignedBy context.skew now a (root ∷ certs) h

      by_document :
          (issuer : List ℕ)
          → string_of J (J.object_get root.payload (codes "iss")) ≡ some issuer
          → (d : Result J.json × Option S)
          → acquire_authority J S ops retrieve context cache issuer now ≡ d
          → (chain_from J S ops retrieve n table context now (root ∷ certs) d).0 ≡ some ok
          → HasChain context cache now root certs
      by_document issuer e (bad x, c) d h =
          absurd
            (fails issuer cache (ap (λ p. p.0) d ∙ ap bad (cert_error-ok x (some-injective h))))
      by_document issuer e (good a, c) d h = record {
        issuer = issuer;
        named = e;
        authority = a;
        acquired = ap (λ p. p.0) d;
        signed = by_key a (J.object_get a (codes "public-key")) (
            mapped-ok
              (chain_with J S ops retrieve n table context now (root ∷ certs)
                (get_authority_public_key J a))
              h);
      }

      by_issuer :
          (issuer : Option (List ℕ))
          → string_of J (J.object_get root.payload (codes "iss")) ≡ issuer
          → (root_issuer J S ops retrieve n table context cache now (root ∷ certs) issuer).0
            ≡ some ok
          → HasChain context cache now root certs
      by_issuer none e h = absurd cc
      by_issuer (some issuer) e h = by_document issuer e _ refl h
