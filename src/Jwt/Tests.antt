-- ===== src/Jwt/Tests.antt =====
-- Runs of the token functions, with a JSON library that writes and reads two values.
use libbrowserid.Prelude.{ℕ, ◌≡◌, refl, List, some, length, arith}
use libbrowserid.Status.{good, ok, invalid_json_web_token}
use libbrowserid.Base64.{codes}
use libbrowserid.Json.Model.{model, text, items, members, member, end, cons, nil}
use libbrowserid.Jwt.{parsed, validate_jwt_header, parse_jwt, make_signature_data, append_signature}
use libbrowserid.Jwt.Model.{header, payload, header_text, payload_text, two_texts}
use libbrowserid.Jwt.RoundTrip.{parse-make_jwt}
use libbrowserid.Jwt.Texts.{header-HasText, payload-HasText}

headers :
    (validate_jwt_header model two_texts header ≡ ok)
    × (validate_jwt_header model two_texts (members (member (codes "typ") (text (codes "JWT")) end))
        ≡ invalid_json_web_token)
    × (validate_jwt_header model two_texts
          (members (member (codes "crit") (items (cons (text (codes "exp")) nil)) end))
        ≡ invalid_json_web_token)
unfolding validate_jwt_header
headers = (refl, refl, refl)

parse-make_jwt_example :
    (d t : List ℕ) × (make_signature_data model two_texts header payload ≡ good d)
    × (append_signature d (some (codes "foo")) ≡ good t)
    × (parse_jwt model two_texts t
        ≡ parsed (
            some (record {
              enc_data = t;
              enc_length = length d;
              header = header;
              payload = payload;
              signature = codes "foo";
            })))
parse-make_jwt_example =
    parse-make_jwt model two_texts header payload header_text payload_text (some (codes "foo"))
      header-HasText payload-HasText headers.0 (omega arith, (omega arith, (omega arith, tt)))
      (omega arith)
