-- ===== src/Jwt/Model.antt =====
-- A JSON library that writes and reads two values, the header and the payload of a small token.
use libbrowserid.Prelude.{List, [], ◌∷◌, Option, none, some, ℕ, if◌then◌else◌}
use libbrowserid.Base64.{codes}
use libbrowserid.Spn.{str_eq}
use libbrowserid.Json.Model.{model, Value, text, members, member, end}
use libbrowserid.Jwt.{JsonText}

abbrev pub header : Value
header = members (member (codes "alg") (text (codes "RS256")) end)

abbrev pub payload : Value
payload = members end

abbrev pub header_text : List ℕ
header_text = codes "{\"alg\":\"RS256\"}"

abbrev pub payload_text : List ℕ
payload_text = codes "{}"

abbrev write : Value → Option (List ℕ)
write (members end) = some payload_text
write (members (member _ _ _)) = some header_text
write _ = none

abbrev read : List ℕ → Option Value
read s =
    if str_eq s payload_text
    then some payload
    else if str_eq s header_text
    then some header
    else none

abbrev listed : Value → Option (List (List ℕ × Value))
listed (members end) = some []
listed (members (member k v end)) = some ((k, v) ∷ [])
listed _ = none

abbrev pub two_texts : JsonText model
two_texts = record { dumps = write; loads = read; object_items = listed }

abbrev pub token : List ℕ
token = codes "eyJhbGciOiJSUzI1NiJ9.e30.Zm9v"
