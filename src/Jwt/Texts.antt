-- ===== src/Jwt/Texts.antt =====
-- The header and the payload of Jwt.Model have texts, as bid_jwt.c writes and reads them.
use libbrowserid.Prelude.{ℕ, ◌≡◌, refl, Bool, true, List, [], ◌∷◌, All, ltb, ◌&&◌, arith}
use libbrowserid.Base64.Ascii.{IsCharacter}
use libbrowserid.Json.Model.{model}
use libbrowserid.Status.{ok}
use libbrowserid.Jwt.{validate_jwt_header}
use libbrowserid.Jwt.Model.{header, payload, header_text, payload_text, two_texts}
use libbrowserid.Jwt.RoundTrip.{HasText}

abbrev all_characters : List ℕ → Bool
all_characters [] = true
all_characters (c ∷ s) = let rest = all_characters s in (ltb 0 c && ltb c 256) && rest

characters : (s : List ℕ) → all_characters s ≡ true → All IsCharacter s
characters [] h = tt
characters (c ∷ s) h = (ground arith, characters s (ground arith))

pub header-HasText : HasText model two_texts header header_text
header-HasText = record {
  written = refl;
  read = refl;
  characters = characters header_text refl;
  short = omega arith;
}

pub payload-HasText : HasText model two_texts payload payload_text
payload-HasText = record {
  written = refl;
  read = refl;
  characters = characters payload_text refl;
  short = omega arith;
}

pub header_valid : validate_jwt_header model two_texts header ≡ ok
unfolding validate_jwt_header
header_valid = refl
