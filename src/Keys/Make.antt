-- ===== src/Keys/Make.antt =====
-- libbrowserid/bid_jwt.c: `_BIDMakeSignature`, with the table of algorithms as a parameter.
use libbrowserid.Prelude.{ℕ, true, List, [], ◌∷◌, Option, none, some, length}
use libbrowserid.Status.{Result, good, bad, BidError, ◌>>=◌, unknown_algorithm}
use libbrowserid.Base64.{codes}
use libbrowserid.Json.{Jansson, allocated, put}
use libbrowserid.Jwt.{JsonText, Jwt, make_signature_data, append_signature}
use libbrowserid.Keys.{Algorithm, find_in, chosen_or}

module _ (J : Jansson) where
  -- The loop of `_BIDMakeSignature` over the table: the first algorithm that the key set has a key for.
  unfoldable pub choose_any :
      ℕ → List (Algorithm J) → Option J.json → BidError → Option (Result (Algorithm J × J.json))
  choose_any n [] keyset err = some (bad err)
  choose_any n (alg ∷ algs) keyset err =
      let rest = choose_any n algs keyset in chosen_or J alg (find_in J n alg keyset) rest

  abbrev pub chosen :
      Option (Result (Algorithm J × J.json)) → Option (Result (Option (Algorithm J × J.json)))
  chosen none = none
  chosen (some (bad e)) = some (bad e)
  chosen (some (good c)) = some (good (some c))

  -- Without a key set there is no key, and the algorithm is "none".
  abbrev pub signer :
      ℕ → List (Algorithm J) → Option J.json → Option (Result (Option (Algorithm J × J.json)))
  signer n table none = some (good none)
  signer n table (some keyset) = chosen (choose_any n table (some keyset) unknown_algorithm)

  abbrev pub alg_name : Option (Algorithm J × J.json) → List ℕ
  alg_name none = codes "none"
  alg_name (some (alg, key)) = alg.alg_id

  abbrev pub header_or : Option J.json → Result J.json
  header_or none = allocated J J.object
  header_or (some header) = good header

  abbrev pub with_chain : J.json → Option J.json → Result J.json
  with_chain header none = good header
  with_chain header (some chain) = put J header (codes "x5c") (some chain) true

  -- The header, with the algorithm's name and the certificates, if there are any.
  unfoldable pub signed_header : Option J.json → List ℕ → Option J.json → Result J.json
  signed_header header name certs = do
    first ← header_or header
    named ← put J first (codes "alg") (J.string name) true
    with_chain named certs

  -- A token with the text that is to be signed.
  abbrev pub unsigned : J.json → J.json → List ℕ → Jwt J
  unsigned header payload d = record {
    enc_data = d;
    enc_length = length d;
    header = header;
    payload = payload;
    signature = [];
  }

module _ (J : Jansson) (T : JsonText J) where
  -- The signed text, and the token.
  unfoldable pub signed_text :
      J.json → J.json → Option (Algorithm J × J.json) → Result (List ℕ × Jwt J)
  signed_text header payload none = do
    d ← make_signature_data J T header payload
    text ← append_signature d none
    good (text, unsigned J header payload d)
  signed_text header payload (some (alg, key)) = do
    d ← make_signature_data J T header payload
    s ← alg.make (unsigned J header payload d) key
    text ← append_signature d (some s)
    good (text, record (unsigned J header payload d) { signature = s })

  abbrev pub sign_with :
      Option J.json
      → J.json
      → Option J.json
      → Option (Result (Option (Algorithm J × J.json)))
      → Option (Result (List ℕ × Jwt J))
  sign_with header payload certs none = none
  sign_with header payload certs (some (bad e)) = some (bad e)
  sign_with header payload certs (some (good c)) =
      some (do h ← signed_header J header (alg_name J c) certs; signed_text h payload c)

  -- `_BIDMakeSignature` of a header, if there is one, and a payload, with a key set and a chain of
  -- certificates, if there are any.
  unfoldable pub make_signature :
      ℕ
      → List (Algorithm J)
      → Option J.json
      → J.json
      → Option J.json
      → Option J.json
      → Option (Result (List ℕ × Jwt J))
  unfolding signed_text signed_header choose_any
  make_signature n table header payload keyset certs =
      sign_with header payload certs (signer J n table keyset)
