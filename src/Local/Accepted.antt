-- ===== src/Local/Accepted.antt =====
-- What `_BIDVerifyLocal` has checked when it accepts an assertion.
use mathlib.Core.Path.{subst}
use libbrowserid.Prelude.{
  ℕ, suc, arith, ◌≡◌, ◌≢◌, refl, sym, ap, ◌∙◌, Bool, true, false, ◌&&◌, List, [], ◌∷◌, Option, none,
  some, length, leb, if◌then◌else◌,
}
use libbrowserid.Prelude.Int.{ℤ}
use libbrowserid.Status.{
  Result, good, bad, BidError, ok, invalid_assertion, too_many_certs, good-injective,
}
use libbrowserid.Base64.{codes}
use libbrowserid.Json.{Jansson}
use libbrowserid.Jwt.{Jwt}
use libbrowserid.Backed.{BackedAssertion}
use libbrowserid.Verify.{validate_expiry, validate_audience}
use libbrowserid.Verify.Expiry.{IsCurrent, validate_expiry-IsCurrent}
use libbrowserid.Verify.Bindings.{AudienceOk, BindingsOk, validate_audience_iff}
use libbrowserid.Keys.{Algorithm, verify_signature}
use libbrowserid.Keys.Verified.{IsVerified, verify_signature-IsVerified}
use libbrowserid.Context.{Context, Identity}
use libbrowserid.Cache.{Operations}
use libbrowserid.Authority.Trust.{document-fails}
use libbrowserid.Chain.{validate_cert_issuer, validate_cert_chain}
use libbrowserid.Status.{some-injective}
use libbrowserid.Chain.Signed.{HasChain, validate_cert_chain-HasChain}
use libbrowserid.Local.{
  Request, Found, Verifiers, find_cred, find_without, reauth_found, x509_found, check_certs,
  first_flags, verify_local, as_status, asserted, is_given, arguments_hold,
}
use libbrowserid.Local.Steps.{some_good, run_then-good, check-good, with_cache-good, of_result-good}

two_more : (k : ℕ) → leb (suc (suc k)) 1 ≡ false
two_more k = ground arith

module _ (J : Jansson) (secret : Type 0) (S : Type 0) (ops : Operations J S)
    (retrieve : List ℕ → Result (J.json × ℤ)) (n : ℕ) (table : List (Algorithm J))
    (V : Verifiers J secret) (context : Context) (request : Request J) (backed : BackedAssertion J)
    (cache : Option S) where
  -- Without certificates, the credential that is used.
  pub data Vouched : List (Jwt J) → Option J.json → Type 0 where
    by_x509 :
        (chain : J.json)
        → J.object_get backed.assertion.header (codes "x5c") ≡ some chain
        → V.validate_x509 chain request.anchors request.now ≡ ok
        → Vouched [] (some backed.assertion.header)
    by_ticket :
        (identity : Identity J secret) (cred : J.json) (flags : ℕ)
        → (request.reauth && context.options.reauth) ≡ true
        → V.verify_reauth backed request.now (first_flags J secret S ops retrieve n table V request)
          ≡ good (identity, cred, flags)
        → Vouched [] (some cred)
    by_request : request.rp ≡ true → Vouched [] request.cred
    -- With one certificate, it is that of an authority for the domain in it, by the documents in
    -- the cache of the call, and by the cache that the check of the issuer left.
    by_certificate :
        (cert : Jwt J)
        → (validate_cert_issuer J S ops retrieve n table context cache
            (cert ∷ [])
            request.now
            request.rp).0
          ≡ ok
        → HasChain J S ops retrieve n table context
            (validate_cert_issuer J S ops retrieve n table context cache
              (cert ∷ [])
              request.now
              request.rp).1
            request.now
            cert
            []
        → Vouched (cert ∷ []) (some cert.payload)

  -- Everything that an assertion has to be.
  pub record Accepted : Type 0 where
    pub audience :
        AudienceOk J context.options.host_spn_alias backed.assertion.payload request.audience
    pub bindings : BindingsOk J backed.assertion.payload request.bindings
    pub current : IsCurrent J context.skew request.now (some backed.assertion.payload)
    pub cred : Option J.json
    pub vouched : Vouched backed.certificates cred
    pub signed : IsVerified J n table backed.assertion cred

  abbrev flags₀ : ℕ
  flags₀ = first_flags J secret S ops retrieve n table V request

  reauth_found-Vouched :
      (found : Found J secret) (r : Result (Identity J secret × J.json × ℕ))
      → (request.reauth && context.options.reauth) ≡ true
      → V.verify_reauth backed request.now flags₀ ≡ r
      → reauth_found J secret S ops retrieve n table V r ≡ good found
      → Vouched [] found.cred
  reauth_found-Vouched found (bad e) b q h = absurd cc
  reauth_found-Vouched found (good (i, k, f)) b q h =
      subst (Vouched []) (ap (λ x. x.cred) (good-injective h)) (by_ticket i k f b q)

  x509_found-Vouched :
      (found : Found J secret) (chain : J.json) (r : BidError)
      → J.object_get backed.assertion.header (codes "x5c") ≡ some chain
      → V.validate_x509 chain request.anchors request.now ≡ r
      → x509_found J secret S ops retrieve n table V backed.assertion.header flags₀ r ≡ good found
      → Vouched [] found.cred
  x509_found-Vouched found chain ok q v h =
      subst (Vouched []) (ap (λ x. x.cred) (good-injective h)) (by_x509 chain q v)
  x509_found-Vouched found chain e q v h = absurd cc

  by_rp-Vouched :
      (found : Found J secret) (b : Bool)
      → request.rp ≡ b
      → ◌≡◌ {A = Result (Found J secret)}
          (if b
            then good (record { cred = request.cred; identity = none; flags = flags₀ })
            else bad invalid_assertion)
          (good found)
      → Vouched [] found.cred
  by_rp-Vouched found true q h =
      subst (Vouched []) (ap (λ x. x.cred) (good-injective h)) (by_request q)
  by_rp-Vouched found false q h = absurd cc

  find_without-Vouched :
      (found : Found J secret) (o : Option J.json) (reauth : Bool)
      → J.object_get backed.assertion.header (codes "x5c") ≡ o
      → (request.reauth && context.options.reauth) ≡ reauth
      → find_without J secret S ops retrieve n table V request reauth flags₀ backed o ≡ good found
      → Vouched [] found.cred
  find_without-Vouched found (some chain) b q r h = x509_found-Vouched found chain _ q refl h
  find_without-Vouched found none true q r h = reauth_found-Vouched found _ r refl h
  find_without-Vouched found none false q r h = by_rp-Vouched found request.rp refl h

  -- A certificate that is accepted.
  certificate-Vouched :
      (fails : (host : List ℕ) → retrieve host ≢ bad ok) (found used : Found J secret)
      (cert : Jwt J)
      → (check_certs J secret S ops retrieve n table V context request found (cert ∷ []) cache).0
        ≡ some (good used)
      → Vouched (cert ∷ []) used.cred
  unfolding check_certs
  certificate-Vouched fails found used cert h =
      let issuer : Option S → Option BidError × Option S = λ d. as_status (
        validate_cert_issuer J S ops retrieve n table context d (cert ∷ []) request.now
          request.rp) in
      let chain : Option S → Option BidError × Option S =
        λ d. validate_cert_chain J S ops retrieve n table context d (cert ∷ []) request.now in
      let (authoritative, h₁) = with_cache-good issuer _ cache used h in
      let (signed, h₂) = with_cache-good chain _ (issuer cache).1 used h₁ in
      subst (Vouched (cert ∷ [])) (ap (λ x. x.cred) (some_good h₂)) (
        by_certificate cert (some-injective authoritative) (
          validate_cert_chain-HasChain J S ops retrieve n table context (issuer cache).1 request.now
            cert [] (λ host d. document-fails J S ops retrieve fails context request.now host d)
            signed))

  certs-Vouched :
      (fails : (host : List ℕ) → retrieve host ≢ bad ok) (certs : List (Jwt J))
      (found used : Found J secret) (c' : Option S)
      → find_cred J secret S ops retrieve n table V context request flags₀ backed certs ≡ good found
      → (if leb (length certs) 1 then ok else too_many_certs) ≡ ok
      → check_certs J secret S ops retrieve n table V context request found certs cache
        ≡ (some (good used), c')
      → Vouched certs used.cred
  unfolding find_cred check_certs
  certs-Vouched fails [] found used c' f one h =
      subst (Vouched []) (ap (λ x. x.cred) (some_good (ap (λ p. p.0) h)))
        (find_without-Vouched found _ _ refl refl f)
  certs-Vouched fails (cert ∷ []) found used c' f one h =
      certificate-Vouched fails found used cert (ap (λ p. p.0) h)
  certs-Vouched fails (a ∷ b ∷ certs) found used c' f one h = absurd (
      let c : too_many_certs ≡ ok =
        sym (ap (λ t. if t then ok else too_many_certs) (two_more (length certs))) ∙ one in
      cc)

  -- An assertion that `_BIDVerifyLocal` accepts names the audience and holds the channel bindings that
  -- the caller asked for, is within its times, and is signed with a credential that is vouched for: a
  -- single certificate, whose issuer is authoritative for its principal by the documents that are
  -- had with the authority cache of the call, and which is signed by the document of its issuer
  -- that is had with the cache as the first check leaves it; or, without certificates, an X.509 chain in its header that is valid, the
  -- key of a ticket that re-authentication accepts and the caller and the context allow, or what the
  -- caller gave to verify a response. A retrieval of a document that fails does so with an error.
  pub verify_local-Accepted :
      (fails : (host : List ℕ) → retrieve host ≢ bad ok) (identity : Identity J secret) (flags : ℕ)
      → (verify_local J secret S ops retrieve n table V context request backed cache).0
        ≡ some (good (identity, flags))
      → Accepted
  unfolding verify_local
  verify_local-Accepted fails identity flags h =
      let certs = backed.certificates in
      let (arguments, h₀) =
        check-good
          (asserted J secret S ops retrieve n table V
            (arguments_hold J secret S ops retrieve n table V context request backed))
          _ cache _ h in
      let (found, f, h₁) =
        of_result-good
          (find_cred J secret S ops retrieve n table V context request flags₀ backed certs) _ cache
          _ h₀ in
      let (audience, h₂) =
        check-good
          (validate_audience J context.options.host_spn_alias (some backed.assertion.payload)
            request.audience request.bindings)
          _ cache _ h₁ in
      let (current, h₃) =
        check-good
          (some (validate_expiry J context.skew request.now (some backed.assertion.payload))) _
          cache _ h₂ in
      let (one, h₄) =
        check-good (some (if leb (length certs) 1 then ok else too_many_certs)) _ cache _ h₃ in
      let (used, kept, q, h₅) =
        run_then-good (check_certs J secret S ops retrieve n table V context request found certs) _
          cache _ h₄ in
      let (given, h₆) =
        check-good
          (asserted J secret S ops retrieve n table V
            (is_given J secret S ops retrieve n table V used.cred))
          _ kept _ h₅ in
      let (signed, h₇) =
        check-good (verify_signature J n table (some backed.assertion) used.cred) _ kept _ h₆ in
      let (names, binds) =
        (validate_audience_iff J context.options.host_spn_alias backed.assertion.payload
            request.audience request.bindings).0
          audience in
      record {
        audience = names;
        bindings = binds;
        current =
            (validate_expiry-IsCurrent J context.skew request.now (some backed.assertion.payload)).0
              (some-injective current);
        cred = used.cred;
        vouched = certs-Vouched fails certs found used kept f (some-injective one) q;
        signed = verify_signature-IsVerified J n table backed.assertion used.cred signed;
      }
