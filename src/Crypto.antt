-- ===== src/Crypto.antt =====
-- libbrowserid/bid_crypto.c: the digest of an assertion, and key agreement. The primitives are those
-- of the cryptographic library.
pub mod Model
pub mod Honest
mod Tests
use libbrowserid.Prelude.{
  ℕ, Bool, true, false, List, Option, none, some, leb, ltb, ◌==◌, if◌then◌else◌,
}
use libbrowserid.Status.{
  Result, good, bad, BidError, ok, ◌>>=◌, ◌>>◌, guard, no_key, crypto_error, invalid_parameter,
  invalid_signature, invalid_ec_curve, unknown_ec_curve, unknown_algorithm,
}
use libbrowserid.Base64.{codes}
use libbrowserid.Spn.{str_eq}
use libbrowserid.Json.{
  Jansson, get, string_of, allocated, stored, put, json_object_set, json_binary_value,
}
use libbrowserid.Context.{Context, Identity}

pub record Primitives (J : Jansson) : Type 1 where
  pub secret : Type 0
  -- `_BIDMakeDigestInternal`, of a value and the object that gets its digest.
  pub make_digest_internal : J.json → J.json → Result J.json
  -- `_BIDDeriveKey`, with a salt.
  pub derive_key : secret → List ℕ → Result (List ℕ)
  -- `_BIDECDHSecretAgreement` and `_BIDGenerateECDHKey`.
  pub secret_agreement : J.json → Option J.json → Result secret
  pub generate_ecdh_key : Option J.json → Result J.json
  -- `json_equal`
  pub equal : Option J.json → Option J.json → Bool

module _ (J : Jansson) where
  abbrev pub required_or : BidError → Option J.json → Result J.json
  required_or e none = bad e
  required_or e (some j) = good j

  -- `_BIDGetKeyAgreementObject`
  unfoldable pub get_key_agreement_object : Option J.json → Result J.json
  get_key_agreement_object json = required_or no_key (get J json (codes "epk"))

  -- `_BIDSetKeyAgreementObject`
  pub set_key_agreement_object : J.json → Option J.json → Result J.json
  set_key_agreement_object json object = put J json (codes "epk") object true

  abbrev pub curve_bits : Option (List ℕ) → ℕ
  curve_bits none = 0
  curve_bits (some curve) =
      if str_eq curve (codes "P-256")
      then 256
      else if str_eq curve (codes "P-384")
      then 384
      else if str_eq curve (codes "P-521")
      then 521
      else 0

  abbrev pub is_ec : Option (List ℕ) → Bool
  is_ec none = false
  is_ec (some type) = str_eq type (codes "EC")

  -- `_BIDGetECDHCurve`
  pub get_ecdh_curve : Option J.json → Result ℕ
  get_ecdh_curve params =
      if is_ec (string_of J (get J params (codes "kty")))
      then (let bits = curve_bits (string_of J (get J params (codes "crv"))) in
          if bits == 0 then bad unknown_ec_curve else good bits)
      else bad unknown_algorithm

  abbrev pub strength_of : Bool → J.json → J.json → Option J.json → Result J.json → Result J.json
  strength_of ecdh_keyex private cred (some _) dh = good cred
  strength_of ecdh_keyex private cred none (bad _) =
      put J cred (codes "crv") (J.object_get private (codes "crv")) false
  strength_of true private cred none (good dh) =
      put J cred (codes "crv") (get J (J.object_get dh (codes "params")) (codes "crv")) true
  strength_of false private cred none (good dh) = good cred

  -- `_BIDSaveKeyAgreementStrength`, with BID_CONTEXT_ECDH_KEYEX and the private attributes.
  unfoldable pub save_key_agreement_strength : Bool → J.json → J.json → Result J.json
  unfolding get_key_agreement_object
  save_key_agreement_strength ecdh_keyex private cred =
      strength_of ecdh_keyex private cred (J.object_get cred (codes "crv"))
        (get_key_agreement_object (some private))

-- `json_is_string`
abbrev pub is_string : Option (List ℕ) → Result (Unit {0})
is_string none = bad invalid_parameter
is_string (some _) = good tt

module _ (J : Jansson) (P : Primitives J) where
  -- `_BIDMakeDigest`
  unfoldable pub make_digest : J.json → Result J.json
  make_digest value = do
    is_string (J.string_value value)
    info ← allocated J J.object
    info' ← put J info (codes "alg") (J.string (codes "S256")) true
    P.make_digest_internal value info'

  -- `_BIDDigestAssertion`
  unfoldable pub digest_assertion : List ℕ → Result J.json
  unfolding make_digest
  digest_assertion text = do
    assertion ← allocated J (J.string text)
    info ← make_digest assertion
    required_or J crypto_error (J.object_get info (codes "dig"))

  -- `_BIDVerifyDigest`, with the status.
  pub verify_digest : J.json → Option J.json → BidError
  verify_digest value asserted = elim info [
    | bad e ↦ e
    | good d ↦
        if P.equal (J.object_get d (codes "dig")) (get J asserted (codes "dig"))
        then ok
        else invalid_signature
  ]
    where
      info : Result J.json
      info = do
        is_string (J.string_value value)
        o ← allocated J J.object
        o' ← put J o (codes "alg") (get J asserted (codes "alg")) true
        P.make_digest_internal value o'

  abbrev pub agree_on : Context → J.json → Result P.secret
  agree_on context dh =
      let params = J.object_get dh (codes "params") in
      if context.options.ecdh_keyex
      then (do
        bits ← get_ecdh_curve J params
        guard (leb context.ecdh_curve bits) invalid_ec_curve
        P.secret_agreement dh params)
      else bad no_key

  abbrev pub agreed :
      Context → Identity J P.secret → Option P.secret → Result (P.secret × Identity J P.secret)
  agreed context identity (some s) = good (s, identity)
  agreed context identity none = do
    dh ← get_key_agreement_object J (some identity.private_attributes)
    s ← agree_on context dh
    good (s, record identity { secret_handle = some s })

  -- `_BIDIdentitySecretAgreement`; the identity keeps the secret.
  unfoldable pub identity_secret_agreement :
      Context → Identity J P.secret → Result (P.secret × Identity J P.secret)
  unfolding get_ecdh_curve
  identity_secret_agreement context identity = agreed context identity identity.secret_handle

  -- `_BIDDeriveSessionSubkey`
  unfoldable pub derive_session_subkey :
      Context → Identity J P.secret → List ℕ → Result (J.json × Identity J P.secret)
  unfolding identity_secret_agreement
  derive_session_subkey context identity salt = do
    (s, identity') ← identity_secret_agreement context identity
    subkey ← P.derive_key s salt
    key ← allocated J J.object
    sk ← json_binary_value J subkey
    key' ← put J key (codes "secret-key") (some sk) false
    good (key', identity')

  -- `_BIDVerifierKeyAgreement`: the source changes the object that the private attributes share.
  unfoldable pub verifier_key_agreement : Identity J P.secret → Result (Identity J P.secret)
  verifier_key_agreement identity = do
    dh ← get_key_agreement_object J (some identity.private_attributes)
    key ← P.generate_ecdh_key (J.object_get dh (codes "params"))
    x ← put J dh (codes "x") (J.object_get key (codes "x")) true
    y ← put J x (codes "y") (J.object_get key (codes "y")) true
    d ← put J y (codes "d") (J.object_get key (codes "d")) true
    private ← set_key_agreement_object J identity.private_attributes (some d)
    good (record identity { private_attributes = private })
