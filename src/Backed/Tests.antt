-- ===== src/Backed/Tests.antt =====
-- Runs of the unpacking, with the JSON library that writes and reads two values.
use libbrowserid.Prelude.{
  ℕ, ◌≡◌, refl, List, [], ◌∷◌, ◌++◌, none, some, arith, Bool, true, not, ◌&&◌, ◌==◌, All,
}
use libbrowserid.Base64.{codes, base64_url_encode, c_string, base64_url_decode}
use libbrowserid.Json.Model.{model, text, members, member, end}
use libbrowserid.Jwt.{Jwt, rejected, parsed, parse_jwt}
use libbrowserid.Jwt.Model.{two_texts, token, header, payload}
use libbrowserid.Backed.{unpack_backed_assertion}
use libbrowserid.Status.{good, too_many_certs}
use libbrowserid.Json.{json_object_set}
use libbrowserid.Jwt.{make_signature_data, encode_json, append_signature}
use libbrowserid.Keys.Make.{make_signature}
use libbrowserid.Backed.Pack.{pack_backed_assertion}
use libbrowserid.Backed.Packed.{init, last, one_more, none_left, unpack-pack_backed_assertion}
use libbrowserid.Backed.Unpack.{join, NoTilde, no_more, next, Parses, unpack-join, unpack-join_over}

abbrev has_no_tilde : List ℕ → Bool
has_no_tilde [] = true
has_no_tilde (c ∷ s) = let rest = has_no_tilde s in not (c == b'~') && rest

abbrev expected : Jwt model
expected = record {
  enc_data = token;
  enc_length = 24;
  header = header;
  payload = payload;
  signature = codes "foo";
}

parses : parse_jwt model two_texts token ≡ parsed (some expected)
unfolding parse_jwt base64_url_decode c_string
parses = refl

no_tilde : (s : List ℕ) → has_no_tilde s ≡ true → All NoTilde s
no_tilde [] h = tt
no_tilde (c ∷ s) h = (ground arith, no_tilde s (ground arith))

plain : All NoTilde token
plain = no_tilde token refl

abbrev two_certificates : List ℕ
two_certificates = join (token ∷ token ∷ []) token

unpack-join_example :
    unpack_backed_assertion model two_texts (some two_certificates)
    ≡ parsed (record {
      enc_data = two_certificates;
      assertion = expected;
      certificates = expected ∷ expected ∷ [];
    })
unpack-join_example =
    unpack-join model two_texts (token ∷ token ∷ []) token (expected ∷ expected ∷ []) expected
      (plain, (plain, tt)) plain (next parses (next parses no_more)) parses (omega arith)

-- Ten certificates, and an eleventh that is none.
abbrev ten : List (List ℕ)
ten = token ∷ token ∷ token ∷ token ∷ token ∷ token ∷ token ∷ token ∷ token ∷ token ∷ []

abbrev ten_tokens : List (Jwt model)
ten_tokens =
    expected ∷ expected ∷ expected ∷ expected ∷ expected ∷ expected ∷ expected ∷ expected ∷ expected
    ∷ expected ∷ []

five :
    (ts : List (List ℕ)) (cs : List (Jwt model))
    → Parses model two_texts ts cs
    → Parses model two_texts
        (token ∷ token ∷ token ∷ token ∷ token ∷ ts)
        (expected ∷ expected ∷ expected ∷ expected ∷ expected ∷ cs)
five ts cs h = next parses (next parses (next parses (next parses (next parses h))))

ten_and_one : All (All NoTilde) (ten ++ ((b'x' ∷ []) ∷ []))
ten_and_one = (
  plain,
  (plain, (plain, (plain, (plain, (plain, (plain, (plain, (plain, (plain, ((refl, tt), tt)))))))))),
)

unpack-join_over_example :
    unpack_backed_assertion model two_texts (some (join (ten ++ ((b'x' ∷ []) ∷ [])) token))
    ≡ rejected too_many_certs
unpack-join_over_example =
    unpack-join_over model two_texts ten (b'x' ∷ []) [] token ten_tokens ten_and_one plain
      (five (token ∷ token ∷ token ∷ token ∷ token ∷ []) _ (five [] [] no_more)) refl

-- An assertion without a key, and a certificate.
abbrev bare : List ℕ
bare = codes "eyJhbGciOiJSUzI1NiJ9.e30."

abbrev bare_token : Jwt model
bare_token = record expected { enc_data = bare; signature = [] }

abbrev bare_made : Jwt model
bare_made = record {
  enc_data = codes "eyJhbGciOiJSUzI1NiJ9.e30";
  enc_length = 24;
  header = members (member (codes "alg") (text (codes "none")) end);
  payload = payload;
  signature = [];
}

bare_parses : parse_jwt model two_texts bare ≡ parsed (some bare_token)
unfolding parse_jwt base64_url_decode c_string
bare_parses = refl

signs_bare :
    make_signature model two_texts 1 [] none payload none none ≡ some (good (bare, bare_made))
unfolding make_signature base64_url_encode json_object_set make_signature_data encode_json
    append_signature
signs_bare = refl

unpack-pack_backed_assertion_example :
    (whole : List ℕ) × (pack_backed_assertion model two_texts 1 []
        (none, payload)
        ((none, payload) ∷ [])
        none
        none
      ≡ some (good whole))
    × (unpack_backed_assertion model two_texts (some whole)
        ≡ parsed (record {
          enc_data = whole;
          assertion = last bare_token (bare_token ∷ []);
          certificates = init bare_token (bare_token ∷ []);
        }))
unpack-pack_backed_assertion_example =
    unpack-pack_backed_assertion model two_texts 1 [] none none payload none ((none, payload) ∷ [])
      bare bare_made (bare ∷ []) bare_token (bare_token ∷ []) signs_bare
      (one_more none payload bare bare_made [] [] signs_bare none_left) (no_tilde bare refl)
      (no_tilde bare refl, tt) bare_parses (next bare_parses no_more) (omega arith)
