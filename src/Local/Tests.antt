-- ===== src/Local/Tests.antt =====
-- An assertion with one certificate.
use libbrowserid.Prelude.{ℕ, refl, true, false, List, [], ◌∷◌, none, some}
use libbrowserid.Prelude.Int.{ℤ, pos, thousandth, thousand_times, ◌-ℤ◌, ◌+ℤ◌}
use libbrowserid.Status.{Result, good, bad, ok, invalid_parameter, invalid_assertion}
use libbrowserid.Base64.{codes}
use libbrowserid.Spn.{str_eq}
use libbrowserid.Json.{json_object_set, get_json_timestamp_value, set_json_timestamp_value}
use libbrowserid.Json.Opts.{parse_protocol_opts}
use libbrowserid.Verify.{validate_audience, validate_expiry}
use libbrowserid.Chain.{validate_cert_issuer, validate_cert_chain}
use libbrowserid.Authority.{issuer_is_authoritative, acquire_authority, get_authority_public_key}
use libbrowserid.Identity.{populate_identity, alloc_identity, validate_subject}
use libbrowserid.Json.Model.{model, Value, Members, text, number, members, member, end}
use libbrowserid.Jwt.{Jwt, split_at}
use libbrowserid.Jwt.Model.{two_texts}
use libbrowserid.Backed.{BackedAssertion}
use libbrowserid.Keys.{Algorithm, verify_signature}
use libbrowserid.Context.Model.{context}
use libbrowserid.Cache.Memory.{MemoryCache, memory_cache}
use libbrowserid.Local.{Request, Verifiers, verify_local}
use libbrowserid.Local.Accepted.{Accepted, verify_local-Accepted}

abbrev rs256 : Algorithm model
rs256 = record {
  alg_id = codes "RS256";
  key_alg_id = codes "RS";
  key_bits = 0;
  key_size = λ j. good 0;
  make = λ jwt key. good (codes "foo");
  verify = λ jwt key. (ok, str_eq jwt.signature (codes "foo"));
}

-- An object with a key and an expiry, and other members.
abbrev keyed : Members → Value
keyed ms = members (
    member (codes "public-key") (members (member (codes "algorithm") (text (codes "RS")) end))
      (member (codes "exp") (number (pos 2000000)) ms))

abbrev token : Value → Jwt model
token payload = record {
  enc_data = [];
  enc_length = 0;
  header = members (member (codes "alg") (text (codes "RS256")) end);
  payload = payload;
  signature = codes "foo";
}

abbrev certificate : Jwt model
certificate = token (
    keyed (
      member (codes "iss") (text (codes "example.com")) (
        member (codes "principal")
          (members (member (codes "email") (text (codes "a@example.com")) end)) end)))

abbrev signed : BackedAssertion model
signed = record {
  enc_data = [];
  assertion = token (
      members (
        member (codes "aud") (text (codes "host/www"))
          (member (codes "exp") (number (pos 1500000)) end)));
  certificates = certificate ∷ [];
}

abbrev request : Request model
request = record {
  audience = some (codes "host/www");
  subject = none;
  bindings = none;
  now = pos 1000;
  rp = false;
  reauth = true;
  cred = none;
  anchors = none;
}

abbrev documents : List ℕ → Result (Value × ℤ)
documents host = good (keyed end, pos 3000)

abbrev others : Verifiers model (List ℕ)
others = record {
  validate_x509 = λ chain anchors now. invalid_parameter;
  populate_x509 = λ backed identity flags. good identity;
  verify_reauth = λ backed now flags. bad invalid_assertion;
}

verify_local-Accepted_example :
    Accepted model
      (List ℕ)
      (MemoryCache model)
      (memory_cache model two_texts (pos 0))
      documents
      4
      (rs256 ∷ [])
      others
      (context true 0 6)
      request
      signed
      none
unfolding verify_local validate_audience validate_expiry get_json_timestamp_value verify_signature
    validate_cert_issuer validate_cert_chain issuer_is_authoritative acquire_authority
    get_authority_public_key set_json_timestamp_value populate_identity json_object_set
    validate_subject parse_protocol_opts thousandth thousand_times ◌-ℤ◌ ◌+ℤ◌ split_at alloc_identity
verify_local-Accepted_example =
    verify_local-Accepted model (List ℕ) (MemoryCache model) (memory_cache model two_texts (pos 0))
      documents 4 (rs256 ∷ []) others (context true 0 6) request signed none (λ host h. cc) _ _ refl
