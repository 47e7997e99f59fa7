-- ===== src/Crypto/Honest.antt =====
-- A function that fails does not return BID_S_OK, if the primitives do not.
use libbrowserid.Prelude.{
  ℕ, ◌≢◌, Bool, true, false, List, Option, none, some, ◌==◌, leb, ltb, ◌^◌, ◌-◌, length,
  if◌then◌else◌,
}
use libbrowserid.Status.{
  Result, good, bad, BidError, ok, ◌>>=◌, ◌>>◌, guard, no_key, crypto_error, buffer_too_long,
  unknown_ec_curve, unknown_algorithm, invalid_ec_curve,
}
use libbrowserid.Base64.{codes, base64_url_encode}
use libbrowserid.Json.{Jansson, get, string_of, put, allocated, stored, json_binary_value}
use libbrowserid.Context.{Context, Identity}
use libbrowserid.Crypto.{
  Primitives, required_or, get_key_agreement_object, guard, agreed, is_string, make_digest,
  digest_assertion, agree_on, is_ec, curve_bits, get_ecdh_curve, identity_secret_agreement,
  derive_session_subkey, strength_of, save_key_agreement_strength,
}

abbrev pub Honest : {A : Type 0} → Result A → Type 0
Honest (good a) = Unit
Honest (bad e) = e ≢ ok

pub bind-Honest :
    {A B : Type 0} (m : Result A) (f : A → Result B)
    → Honest m
    → ((a : A) → Honest (f a))
    → Honest (m >>= f)
bind-Honest (good a) f hm hf = hf a
bind-Honest (bad e) f hm hf = hm

base64_encode-Honest : (bytes : List ℕ) → Honest (base64_url_encode bytes)
unfolding base64_url_encode
base64_encode-Honest bytes = from (ltb (2 ^ 30 - 1) (length bytes)) _
  where
    from : (b : Bool) (s : List ℕ) → Honest {A = List ℕ} (if b then bad buffer_too_long else good s)
    from true s = λ h. cc
    from false s = tt

-- The primitives fail with an error.
pub record AreHonest (J : Jansson) (P : Primitives J) : Type 0 where
  pub digest : (v info : J.json) → Honest (P.make_digest_internal v info)
  pub derive : (s : P.secret) (salt : List ℕ) → Honest (P.derive_key s salt)
  pub agreement : (dh : J.json) (params : Option J.json) → Honest (P.secret_agreement dh params)

is_string-Honest : (t : Option (List ℕ)) → Honest (is_string t)
is_string-Honest none = λ h. cc
is_string-Honest (some _) = tt

module _ (J : Jansson) where
  pub stored-Honest : (r : BidError × J.json) → Honest (stored J r)
  stored-Honest (ok, o) = tt
  stored-Honest (e, o) = λ h. cc

  pub allocated-Honest : (r : Option J.json) → Honest (allocated J r)
  allocated-Honest none = λ h. cc
  allocated-Honest (some j) = tt

  required_or-Honest : (e : BidError) (r : Option J.json) → e ≢ ok → Honest (required_or J e r)
  required_or-Honest e none ne = ne
  required_or-Honest e (some j) ne = tt

  get_key_agreement_object-Honest : (r : Option J.json) → Honest (get_key_agreement_object J r)
  unfolding get_key_agreement_object
  get_key_agreement_object-Honest r = required_or-Honest no_key _ (λ h. cc)

  get_ecdh_curve-Honest : (params : Option J.json) → Honest (get_ecdh_curve J params)
  unfolding get_ecdh_curve
  get_ecdh_curve-Honest params =
      from (is_ec J (string_of J (get J params (codes "kty"))))
        (curve_bits J (string_of J (get J params (codes "crv"))) == 0) _
    where
      from :
          (a b : Bool) (bits : ℕ)
          → Honest {A = ℕ}
              (if a then (if b then bad unknown_ec_curve else good bits) else bad unknown_algorithm)
      from true true bits = λ h. cc
      from true false bits = tt
      from false b bits = λ h. cc

  pub strength-Honest :
      (ecdh_keyex : Bool) (private cred : J.json)
      → Honest (save_key_agreement_strength J ecdh_keyex private cred)
  unfolding save_key_agreement_strength
  strength-Honest ecdh_keyex private cred =
      from ecdh_keyex (J.object_get cred (codes "crv")) (get_key_agreement_object J (some private))
    where
      from :
          (b : Bool) (crv : Option J.json) (dh : Result J.json)
          → Honest (strength_of J b private cred crv dh)
      from b (some _) dh = tt
      from b none (bad _) = stored-Honest _
      from true none (good dh) = stored-Honest _
      from false none (good dh) = tt

module _ (J : Jansson) (P : Primitives J) (A : AreHonest J P) where
  make_digest-Honest : (value : J.json) → Honest (make_digest J P value)
  unfolding make_digest
  make_digest-Honest value =
      bind-Honest (is_string (J.string_value value)) _ (is_string-Honest (J.string_value value))
        (λ _. bind-Honest (allocated J J.object) _ (allocated-Honest J J.object) (λ o.
          bind-Honest (put J o (codes "alg") (J.string (codes "S256")) true) _ (stored-Honest J _)
            (λ o'. A.digest value o')))

  pub digest_assertion-Honest : (text : List ℕ) → Honest (digest_assertion J P text)
  unfolding digest_assertion
  digest_assertion-Honest text =
      bind-Honest (allocated J (J.string text)) _ (allocated-Honest J _) (λ v.
        bind-Honest (make_digest J P v) _ (make_digest-Honest v)
          (λ info. required_or-Honest J crypto_error _ (λ h. cc)))

  agree_on-Honest : (context : Context) (dh : J.json) → Honest (agree_on J P context dh)
  agree_on-Honest context dh = from context.options.ecdh_keyex
    where
      params : Option J.json
      params = J.object_get dh (codes "params")

      guarded : (b : Bool) → Honest (guard b invalid_ec_curve)
      guarded true = tt
      guarded false = λ h. cc

      from :
          (b : Bool)
          → Honest {A = P.secret} (
              if b
              then (do
                bits ← get_ecdh_curve J params
                guard (leb context.ecdh_curve bits) invalid_ec_curve
                P.secret_agreement dh params)
              else bad no_key)
      from true = bind-Honest (get_ecdh_curve J params) _ (get_ecdh_curve-Honest J params) (λ bits.
          bind-Honest (guard (leb context.ecdh_curve bits) invalid_ec_curve) _ (guarded _)
            (λ _. A.agreement dh params))
      from false = λ h. cc

  agreed-Honest :
      (context : Context) (identity : Identity J P.secret) (s : Option P.secret)
      → Honest (agreed J P context identity s)
  agreed-Honest context identity (some s) = tt
  agreed-Honest context identity none =
      bind-Honest (get_key_agreement_object J (some identity.private_attributes)) _
        (get_key_agreement_object-Honest J _)
        (λ dh. bind-Honest (agree_on J P context dh) _ (agree_on-Honest context dh) (λ s. tt))

  pub derive_session_subkey-Honest :
      (context : Context) (identity : Identity J P.secret) (salt : List ℕ)
      → Honest (derive_session_subkey J P context identity salt)
  unfolding derive_session_subkey identity_secret_agreement json_binary_value
  derive_session_subkey-Honest context identity salt =
      bind-Honest (agreed J P context identity identity.secret_handle) _
        (agreed-Honest context identity identity.secret_handle)
        (λ p. bind-Honest (P.derive_key p.0 salt) _ (A.derive p.0 salt) (λ subkey.
          bind-Honest (allocated J J.object) _ (allocated-Honest J J.object) (λ key.
            bind-Honest (json_binary_value J subkey) _
              (bind-Honest (base64_url_encode subkey) _ (base64_encode-Honest subkey)
                (λ t. allocated-Honest J (J.string t)))
              (λ sk.
                bind-Honest (put J key (codes "secret-key") (some sk) false) _ (stored-Honest J _)
                  (λ key'. tt)))))
