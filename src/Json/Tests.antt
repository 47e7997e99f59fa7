-- ===== src/Json/Tests.antt =====
-- Runs of the accessors of JSON objects.
use libbrowserid.Prelude.{◌≡◌, refl, ap, get_or, List, [], ◌∷◌, none, some, ℕ, ◌≢◌, arith}
use libbrowserid.Prelude.Int.{pos, thousand_times}
use libbrowserid.Status.{ok}
use libbrowserid.Base64.{codes, base64_url_encode, decoded}
use libbrowserid.Json.{
  json_object_set, json_binary_value, set_json_timestamp_value, get_json_timestamp_value,
  json_object_set_binary_value, get_json_binary_value,
}
use libbrowserid.Json.Model.{
  items, cons, nil, model, model-IsJansson, members, member, end, number, text, Value,
}
use libbrowserid.Json.Strings.{get_json_string_value_array, get-set_strings, next, no_more}
use libbrowserid.Json.Access.{get-set_json_timestamp_value, get-set_json_binary_value}

abbrev base : Value
base = members (member (codes "iss") (text (codes "example.com")) end)

abbrev dated : Value
dated = members (
    member (codes "exp") (number (pos 1700000000000))
      (member (codes "iss") (text (codes "example.com")) end))

get-set_json_timestamp_value_example :
    (get_json_timestamp_value model (some dated) (codes "exp") ≡ (ok, pos 1700000000))
    × ((l : List ℕ) → codes "exp" ≢ l → model.object_get dated l ≡ model.object_get base l)
unfolding set_json_timestamp_value thousand_times
get-set_json_timestamp_value_example =
    get-set_json_timestamp_value model model-IsJansson base dated (codes "exp") (pos 1700000000)
      (omega arith, omega arith) refl

abbrev bound : Value
bound = members (
    member (codes "cb") (text (codes "Zm9v"))
      (member (codes "iss") (text (codes "example.com")) end))

get-set_json_binary_value_example :
    (get_json_binary_value model (some bound) (codes "cb") ≡ decoded (codes "foo"))
    × ((l : List ℕ) → codes "cb" ≢ l → model.object_get bound l ≡ model.object_get base l)
unfolding json_object_set_binary_value json_object_set json_binary_value base64_url_encode
get-set_json_binary_value_example =
    get-set_json_binary_value model model-IsJansson base bound (codes "cb") (codes "foo")
      (omega arith, (omega arith, (omega arith, tt))) (omega arith) refl

abbrev listed : Value
listed = members (
    member (codes "ids") (items (cons (text (codes "a")) (cons (text (codes "b")) nil)))
      (member (codes "iss") (text (codes "example.com")) end))

get-set_strings_example :
    (get_json_string_value_array model (some listed) (some (codes "ids"))
      ≡ (ok, some (codes "a" ∷ codes "b" ∷ [])))
    × (get_json_string_value_array model (some listed) (some (codes "exp")) ≡ (ok, none))
unfolding json_object_set
get-set_strings_example =
    get-set_strings model model-IsJansson base listed (codes "ids") (codes "exp")
      (codes "a" ∷ codes "b" ∷ []) (text (codes "a") ∷ text (codes "b") ∷ [])
      (next refl (next refl no_more)) refl refl
      (λ e. let c : 105 ≡ 101 = ap (λ s. get_or s 0 0) e in omega arith) refl
