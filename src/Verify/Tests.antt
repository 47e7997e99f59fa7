-- ===== src/Verify/Tests.antt =====
-- Runs of the verifier's checks on small payloads.
use libbrowserid.Prelude.{◌≡◌, ◌↔◌, refl, none, some, true, inr}
use libbrowserid.Prelude.Int.{pos, ◌+ℤ◌, ◌-ℤ◌, thousandth}
use libbrowserid.Status.{ok, expired_assertion, invalid_assertion, unknown_json_key}
use libbrowserid.Base64.{codes, base64_url_decode}
use libbrowserid.Spn.{hostify_spn}
use libbrowserid.Json.{get_json_timestamp_value, get_json_binary_value}
use libbrowserid.Json.Model.{model, members, member, end, number, text, Value}
use libbrowserid.Verify.{validate_expiry, validate_audience}
use libbrowserid.Verify.Expiry.{IsCurrent, validate_expiry-IsCurrent}
use libbrowserid.Verify.Bindings.{AudienceOk, BindingsOk, validate_audience_iff}

abbrev dated : Value
dated =
    members (
      member (codes "iat") (number (pos 1000000)) (member (codes "exp") (number (pos 2000000)) end))

abbrev issued_only : Value
issued_only = members (member (codes "iat") (number (pos 1000000)) end)

runs :
    (validate_expiry model 60 (pos 2060) (some dated) ≡ ok)
    × (validate_expiry model 60 (pos 2061) (some dated) ≡ expired_assertion)
    × (validate_expiry model 60 (pos 939) (some dated) ≡ invalid_assertion)
    × (validate_expiry model 60 (pos 1120) (some issued_only) ≡ ok)
    × (validate_expiry model 60 (pos 1121) (some issued_only) ≡ expired_assertion)
    × (validate_expiry model 60 (pos 1000) none ≡ unknown_json_key)
unfolding validate_expiry get_json_timestamp_value ◌+ℤ◌ ◌-ℤ◌ thousandth
runs = (refl, refl, refl, refl, refl, refl)

validate_expiry-IsCurrent_example :
    (validate_expiry model 60 (pos 1500) (some dated) ≡ ok)
    ↔ IsCurrent model 60 (pos 1500) (some dated)
validate_expiry-IsCurrent_example = validate_expiry-IsCurrent model 60 (pos 1500) (some dated)

abbrev claims : Value
claims = members (
    member (codes "aud") (text (codes "host/www.example.com"))
      (member (codes "cb") (text (codes "Zm9v")) end))

accepted :
    validate_audience model true
      (some claims)
      (some (codes "HTTP/WWW.example.com"))
      (some (codes "foo"))
    ≡ some ok
unfolding hostify_spn get_json_binary_value base64_url_decode
accepted =
    (validate_audience_iff model true claims (some (codes "HTTP/WWW.example.com"))
        (some (codes "foo"))).1
      ((codes "host/www.example.com", refl, inr (refl, refl)), refl)

validate_audience_iff_example :
    (validate_audience model true
        (some claims)
        (some (codes "HTTP/WWW.example.com"))
        (some (codes "foo"))
      ≡ some ok)
    ↔ (AudienceOk model true claims (some (codes "HTTP/WWW.example.com"))
        × BindingsOk model claims (some (codes "foo")))
validate_audience_iff_example =
    validate_audience_iff model true claims (some (codes "HTTP/WWW.example.com"))
      (some (codes "foo"))
