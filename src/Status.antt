-- ===== src/Status.antt =====
-- The error codes of libbrowserid/browserid.h, and results that carry them.
use libbrowserid.Prelude.{◌≡◌, refl, ap, Bool, true, false, some}

-- `BIDError`; a constructor is the code without its prefix.
pub data BidError : Type 0 where
  ok no_context no_memory not_implemented invalid_parameter invalid_usage unavailable : BidError
  unknown_json_key invalid_json invalid_base64 invalid_assertion cannot_encode_json : BidError
  cannot_encode_base64 too_many_certs untrusted_issuer invalid_issuer missing_issuer : BidError
  missing_audience bad_audience expired_assertion assertion_not_yet_valid expired_cert : BidError
  cert_not_yet_valid invalid_signature missing_algorithm unknown_algorithm invalid_key : BidError
  invalid_keyset no_key crypto_error http_error buffer_too_small buffer_too_long : BidError
  remote_verify_failure missing_principal unknown_principal_type missing_cert : BidError
  unknown_attribute missing_channel_bindings channel_bindings_mismatch no_session_key : BidError
  document_not_modified interact_unavailable interact_failure interact_required : BidError
  invalid_audience_urn invalid_json_web_token no_more_items cache_open_error cache_read_error :
      BidError
  cache_write_error cache_close_error cache_lock_error cache_lock_timeout cache_unlock_error :
      BidError
  cache_destroy_error cache_permission_denied cache_invalid_version cache_scheme_unknown : BidError
  cache_already_exists cache_not_found cache_key_not_found replayed_assertion : BidError
  dh_param_generation_failure dh_key_generation_failure no_ticket_cache bad_ticket_cache : BidError
  cert_file_unreadable key_file_unreadable untrusted_x509_cert not_reauth_assertion : BidError
  bad_subject mismatched_rp_response reflected_rp_response missing_signature invalid_secret :
      BidError
  key_too_short unknown_ec_curve invalid_ec_curve missing_nonce unknown_error_code : BidError

-- The result of a function that returns a `BIDError`: what it stores through its out parameters
-- with BID_S_OK, or another code.
pub data Result {ℓ} (A : Type ℓ) : Type ℓ where
  good : A → Result A
  bad : BidError → Result A

infixl 5 ◌>>=◌ ◌>>◌
abbrev pub ◌>>=◌ {ℓ κ} : {A : Type ℓ} {B : Type κ} → Result A → (A → Result B) → Result B
good a >>= f = f a
bad e >>= f = bad e

abbrev pub ◌>>◌ {ℓ} : {B : Type ℓ} → Result (Unit {0}) → Result B → Result B
m >> k = m >>= λ _. k

-- `if (!b) { err = e; goto cleanup; }`
abbrev pub guard : Bool → BidError → Result (Unit {0})
guard true e = good tt
guard false e = bad e

-- What a step that succeeds has come from.
pub >>=_good {ℓ κ} :
    {A : Type ℓ} {B : Type κ} (m : Result A) (f : A → Result B) (b : B)
    → (m >>= f) ≡ good b
    → (a : A) × (m ≡ good a) × (f a ≡ good b)
>>=_good (good a) f b h = (a, refl, h)
>>=_good (bad e) f b h = absurd cc

abbrev value_of {ℓ} : {A : Type ℓ} → A → Result A → A
value_of d (good a) = a
value_of d (bad e) = d

pub good-injective {ℓ} : {A : Type ℓ} {a b : A} → good a ≡ good b → a ≡ b
good-injective {a = a} h = ap (value_of a) h

pub some-injective {ℓ} : {A : Type ℓ} {a b : A} → some a ≡ some b → a ≡ b
some-injective h = cc
