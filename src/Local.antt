-- ===== src/Local.antt =====
-- libbrowserid/bid_verify.c: `_BIDVerifyLocal`. What it does for X.509 certificates and for tickets
-- of re-authentication are parameters.
pub mod Steps
pub mod Accepted
mod Tests
use libbrowserid.Prelude.{
  ℕ, Bool, true, false, not, ◌&&◌, ◌||◌, List, [], ◌∷◌, Option, none, some, length, leb,
  if◌then◌else◌,
}
use libbrowserid.Prelude.Int.{ℤ}
use libbrowserid.Status.{Result, good, bad, BidError, ok, invalid_assertion, too_many_certs, no_key}
use libbrowserid.Base64.{codes}
use libbrowserid.Json.{Jansson}
use libbrowserid.Json.Opts.{has_flag, add_flag, parse_protocol_opts}
use libbrowserid.Jwt.{Jwt}
use libbrowserid.Backed.{BackedAssertion}
use libbrowserid.Verify.{validate_expiry, validate_audience}
use libbrowserid.Keys.{Algorithm, verify_signature}
use libbrowserid.Context.{Context, Identity}
use libbrowserid.Cache.{Operations}
use libbrowserid.Chain.{validate_cert_issuer, validate_cert_chain}
use libbrowserid.Identity.{rp_flag, certs_flag, x509_flag, populate_identity, validate_subject}

-- A part of the verification, which may change a cache of state `S`: the outcome, with `none` for a
-- failed assertion, a read outside a string or the end of the fuel, and the cache.
abbrev pub Run : Type 0 → Type 0 → Type 0
Run S A = Option S → Option (Result A) × Option S

abbrev pub continue :
    {S A B : Type 0} → (A → Run S B) → Option (Result A) × Option S → Option (Result B) × Option S
continue f (none, c) = (none, c)
continue f (some (bad e), c) = (some (bad e), c)
continue f (some (good a), c) = f a c

-- `BID_BAIL_ON_ERROR` between two parts.
abbrev pub run_then : {S A B : Type 0} → Run S A → (A → Run S B) → Run S B
run_then m f c = continue f (m c)

abbrev pub done : {S A : Type 0} → A → Run S A
done a c = (some (good a), c)

abbrev pub fail : {S A : Type 0} → BidError → Run S A
fail e c = (some (bad e), c)

-- The outcome of a check that has only a status.
abbrev pub outcome : Option BidError → Option (Result (Unit {0}))
outcome none = none
outcome (some ok) = some (good tt)
outcome (some e) = some (bad e)

abbrev pub check : {S : Type 0} → Option BidError → Run S (Unit {0})
check e c = (outcome e, c)

abbrev pub of_result : {S A : Type 0} → Result A → Run S A
of_result r c = (some r, c)

abbrev pub with_cache :
    {S : Type 0} → Option BidError × Option S → Option (Result (Unit {0})) × Option S
with_cache (e, c) = (outcome e, c)

abbrev pub as_status : {S : Type 0} → BidError × Option S → Option BidError × Option S
as_status (e, c) = (some e, c)

-- What the caller of `_BIDVerifyLocal` asks for: its arguments, with the bits BID_VERIFY_FLAG_RP and
-- BID_VERIFY_FLAG_REAUTH of `ulReqFlags`.
pub record Request (J : Jansson) : Type 0 where
  pub audience : Option (List ℕ)
  pub subject : Option (List ℕ)
  pub bindings : Option (List ℕ)
  pub now : ℤ
  pub rp : Bool
  pub reauth : Bool
  pub cred : Option J.json
  pub anchors : Option J.json

-- The credential that the signature has to verify with, the identity if there is one already, and
-- the flags.
pub record Found (J : Jansson) (secret : Type 0) : Type 0 where
  pub cred : Option J.json
  pub identity : Option (Identity J secret)
  pub flags : ℕ

-- The parts of the library for X.509 and re-authentication: `_BIDValidateX509` of a chain and the
-- anchors, `_BIDPopulateX509Identity`, and `_BIDVerifyReauthAssertion` with the flags so far, which
-- gives the identity, the key and the flags.
pub record Verifiers (J : Jansson) (secret : Type 0) : Type 0 where
  pub validate_x509 : J.json → Option J.json → ℤ → BidError
  pub populate_x509 : BackedAssertion J → Identity J secret → ℕ → Result (Identity J secret)
  pub verify_reauth : BackedAssertion J → ℤ → ℕ → Result (Identity J secret × J.json × ℕ)

module _ (J : Jansson) (secret : Type 0) (S : Type 0) (ops : Operations J S)
    (retrieve : List ℕ → Result (J.json × ℤ)) (n : ℕ) (table : List (Algorithm J))
    (V : Verifiers J secret) where
  abbrev reauth_found : Result (Identity J secret × J.json × ℕ) → Result (Found J secret)
  reauth_found (bad e) = bad e
  reauth_found (good (identity, cred, flags)) =
      good (record { cred = some cred; identity = some identity; flags = flags })

  abbrev x509_found : J.json → ℕ → BidError → Result (Found J secret)
  x509_found header flags ok = good (record {
    cred = some header;
    identity = none;
    flags = add_flag (add_flag flags x509_flag) certs_flag;
  })
  x509_found header flags e = bad e

  -- `reauth` is BID_VERIFY_FLAG_REAUTH, if the context has BID_CONTEXT_REAUTH.
  abbrev find_without :
      Request J → Bool → ℕ → BackedAssertion J → Option J.json → Result (Found J secret)
  find_without request reauth flags backed (some chain) =
      x509_found backed.assertion.header flags (V.validate_x509 chain request.anchors request.now)
  find_without request reauth flags backed none =
      if reauth
      then reauth_found (V.verify_reauth backed request.now flags)
      else if request.rp
      then good (record { cred = request.cred; identity = none; flags = flags })
      else bad invalid_assertion

  -- The first part of `_BIDVerifyLocal`: without certificates, where the credential is from.
  pub find_cred :
      Context → Request J → ℕ → BackedAssertion J → List (Jwt J) → Result (Found J secret)
  find_cred context request flags backed (cert ∷ certs) =
      good (record { cred = request.cred; identity = none; flags = flags })
  find_cred context request flags backed [] =
      find_without request (request.reauth && context.options.reauth) flags backed
        (J.object_get backed.assertion.header (codes "x5c"))

  abbrev last_of : Jwt J → List (Jwt J) → Jwt J
  last_of cert [] = cert
  last_of cert (next ∷ certs) = last_of next certs

  -- The certificates, if there are any.
  pub check_certs : Context → Request J → Found J secret → List (Jwt J) → Run S (Found J secret)
  check_certs context request found [] = done found
  check_certs context request found (cert ∷ certs) =
      run_then
        (λ c. with_cache (
          as_status (
            validate_cert_issuer J S ops retrieve n table context c (cert ∷ certs) request.now
              request.rp)))
        (λ _.
          run_then
            (λ c.
              with_cache
                (validate_cert_chain J S ops retrieve n table context c (cert ∷ certs) request.now))
            (λ _. done (record found {
              cred = some (last_of cert certs).payload;
              flags = add_flag found.flags certs_flag;
            })))

  abbrev identity_or :
      Context → BackedAssertion J → ℕ → Option (Identity J secret) → Result (Identity J secret)
  identity_or context backed flags (some identity) = good identity
  identity_or context backed flags none =
      populate_identity J secret context V.populate_x509 backed flags

  abbrev subject_status : Context → Request J → ℕ → Identity J secret → BidError
  subject_status context request flags identity =
      if has_flag flags certs_flag
      then validate_subject J context.options.gss request.rp identity.attributes request.subject
      else ok

  abbrev final_flags : Request J → BackedAssertion J → ℕ → Result ℕ
  final_flags request backed flags =
      if request.rp
      then good flags
      else parse_protocol_opts J (J.object_get backed.assertion.payload (codes "opts")) flags

  abbrev first_flags : Request J → ℕ
  first_flags request = if request.rp then add_flag 0 rp_flag else 0

  abbrev pub asserted : Bool → Option BidError
  asserted true = some ok
  asserted false = none

  abbrev pub is_given : Option J.json → Bool
  is_given none = false
  is_given (some _) = true

  abbrev is_named : Option (List ℕ) → Bool
  is_named none = false
  is_named (some _) = true

  -- Whether the assertion is looked at as one of re-authentication: without certificates in it or in
  -- its header.
  abbrev reauth_case : Context → Request J → BackedAssertion J → List (Jwt J) → Bool
  reauth_case context request backed (cert ∷ certs) = false
  reauth_case context request backed [] =
      not (is_given (J.object_get backed.assertion.header (codes "x5c")))
      && (request.reauth && context.options.reauth)

  -- The assertions on the arguments: a subject is asked for of a response only, and an assertion of
  -- re-authentication is no response and is verified without a credential of the caller.
  abbrev pub arguments_hold : Context → Request J → BackedAssertion J → Bool
  arguments_hold context request backed =
      (request.rp || not (is_named request.subject))
      && (not (reauth_case context request backed backed.certificates)
          || (not (is_given request.cred) && not request.rp))

  -- `_BIDVerifyLocal`: the identity and the flags, or the error.
  pub verify_local : Context → Request J → BackedAssertion J → Run S (Identity J secret × ℕ)
  unfolding find_cred check_certs
  verify_local context request backed =
      run_then (check (asserted (arguments_hold context request backed))) (λ _.
        run_then
          (of_result (find_cred context request (first_flags request) backed backed.certificates))
          (λ found.
            run_then
              (check (
                validate_audience J context.options.host_spn_alias (some backed.assertion.payload)
                  request.audience request.bindings))
              (λ _.
                run_then
                  (check (
                    some
                      (validate_expiry J context.skew request.now (some backed.assertion.payload))))
                  (λ _.
                    run_then
                      (check
                        (some (if leb (length backed.certificates) 1 then ok else too_many_certs)))
                      (λ _.
                        run_then (check_certs context request found backed.certificates) (λ used.
                          run_then (check (asserted (is_given used.cred))) (λ _.
                            run_then
                              (check (verify_signature J n table (some backed.assertion) used.cred))
                              (λ _.
                                run_then
                                  (of_result (identity_or context backed used.flags used.identity))
                                  (λ identity.
                                    run_then
                                      (check
                                        (some (subject_status context request used.flags identity)))
                                      (λ _.
                                        run_then (of_result (final_flags request backed used.flags))
                                          (λ flags. done (identity, flags))))))))))))
