-- ===== src/Token/Tests.antt =====
-- Runs of the token code at concrete inputs.
use libbrowserid.Prelude.{
  ℕ, ◌≡◌, ◌≢◌, ◌⊎◌, none, refl, true, List, [], ◌∷◌, ◌++◌, some, length, ◌+◌, arith,
}
use libbrowserid.Gss.{bad_mech}
use libbrowserid.Token.{
  done, failed, header_bytes, type_none, make_token_header, token_size, verify_token_header,
  der_write_length,
}
use libbrowserid.Token.Bounds.{Safe, IsWithin, HasOid, verify_token_header-Safe}
use libbrowserid.Token.Der.{ReadsBack, der_read_length-write}
use libbrowserid.Token.RoundTrip.{at, token_size-make, verify_token_header-make}

abbrev oid : List ℕ
oid = 1 ∷ 3 ∷ 6 ∷ []

abbrev inner : List ℕ
inner = 7 ∷ 8 ∷ []

make_example :
    (make_token_header (some oid) 2 0x632c ≡ some (0x60 ∷ 9 ∷ 6 ∷ 3 ∷ 1 ∷ 3 ∷ 6 ∷ 0x63 ∷ 0x2c ∷ []))
    × (make_token_header (some oid) 2 0 ≡ none)
unfolding make_token_header
make_example = (refl, refl)

verify_example :
    verify_token_header true true (header_bytes (some oid) 2 0x632c ++ inner) 11
    ≡ done (record {
      mech = some oid;
      tok_type = some 0x632c;
      body = record { buf = inner; left = 2 };
    })
unfolding header_bytes verify_token_header
verify_example = refl

verify_short : verify_token_header true true (0x60 ∷ 2 ∷ 6 ∷ 0 ∷ []) 4 ≡ failed bad_mech (some [])
unfolding verify_token_header
verify_short = refl

verify_token_header-make_example :
    ((0x632c ≡ type_none) × (make_token_header (some oid) 2 0x632c ≡ none))
    ⊎ ((0x632c ≢ type_none)
        × (header : List ℕ) × (make_token_header (some oid) 2 0x632c ≡ some header)
        × (verify_token_header true true (header ++ inner) (token_size (some oid) 2)
            ≡ done (record { mech = some oid; tok_type = some 0x632c; body = at inner 2 })))
verify_token_header-make_example =
    verify_token_header-make (some oid) inner 0x632c (omega arith, omega arith, omega arith)
      (omega arith)

token_size-make_example : token_size (some oid) 2 ≡ length (header_bytes (some oid) 2 0x632c) + 2
unfolding make_token_header
token_size-make_example = token_size-make (some oid) 2 0x632c _ (omega arith) (omega arith) refl

-- A length of two octets.
der_read_length-write_example : ReadsBack 300 (der_write_length 300) inner 5
der_read_length-write_example =
    der_read_length-write 300 inner 5 (omega arith) (unfold der_write_length in omega arith)

-- A token that ends behind its OID.
verify_token_header-Safe_example :
    Safe
      (λ h. IsWithin (0x60 ∷ 4 ∷ 6 ∷ 2 ∷ 1 ∷ 3 ∷ []) 6 h × HasOid h.mech)
      (verify_token_header true true (0x60 ∷ 4 ∷ 6 ∷ 2 ∷ 1 ∷ 3 ∷ []) 6)
verify_token_header-Safe_example =
    verify_token_header-Safe true true (0x60 ∷ 4 ∷ 6 ∷ 2 ∷ 1 ∷ 3 ∷ []) 6 (omega arith)
