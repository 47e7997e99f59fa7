-- ===== src/Json/Strings.antt =====
-- libbrowserid/bid_util.c: a string or an array of strings, as a list.
use libbrowserid.Prelude.{◌≡◌, ◌≢◌, refl, ap, ap₂, ◌∙◌, ℕ, Option, none, some, List, [], ◌∷◌, false}
use libbrowserid.Status.{Result, good, bad, BidError, ok, unknown_json_key, invalid_json}
use libbrowserid.Json.{Jansson, IsJansson, get, json_object_set}
use libbrowserid.Json.Access.{json_object_set-Updated}

module _ (J : Jansson) where
  abbrev push_string : Option (List ℕ) → List (List ℕ) → List (List ℕ)
  push_string none rest = rest
  push_string (some s) rest = s ∷ rest

  -- The loop over an array, which passes over what is no string.
  pub strings_of : List J.json → List (List ℕ)
  strings_of [] = []
  strings_of (value ∷ values) = push_string (J.string_value value) (strings_of values)

  abbrev array_strings : Option (List J.json) → Result (List (List ℕ))
  array_strings none = bad invalid_json
  array_strings (some values) = good (strings_of values)

  abbrev value_strings : Option (List ℕ) → Option (List J.json) → Result (List (List ℕ))
  value_strings (some s) items = good (s ∷ [])
  value_strings none items = array_strings items

  -- `_BIDGetJsonStringValueArray` up to its cleanup.
  pub collect_strings : Option J.json → Result (List (List ℕ))
  unfolding strings_of
  collect_strings none = bad unknown_json_key
  collect_strings (some json) = value_strings (J.string_value json) (J.array_items json)

  abbrev selected : Option J.json → Option (List ℕ) → Option J.json
  selected json none = json
  selected json (some key) = get J json key

  -- Behind the cleanup BID_S_OK is returned in any case; the array is NULL after an error.
  abbrev returned : Result (List (List ℕ)) → BidError × Option (List (List ℕ))
  returned (bad e) = (ok, none)
  returned (good ss) = (ok, some ss)

  -- `_BIDGetJsonStringValueArray`, with `szKey` NULL or not.
  pub get_json_string_value_array :
      Option J.json → Option (List ℕ) → BidError × Option (List (List ℕ))
  unfolding collect_strings
  get_json_string_value_array json key = returned (collect_strings (selected json key))

module _ (J : Jansson) (L : IsJansson J) where
  -- The values that `json_string` makes of texts.
  pub data Made : List (List ℕ) → List J.json → Type 0 where
    no_more : Made [] []
    next :
        {s : List ℕ} {v : J.json} {ss : List (List ℕ)} {vs : List J.json}
        → J.string_value v ≡ some s
        → Made ss vs
        → Made (s ∷ ss) (v ∷ vs)

  strings_of-Made : (ss : List (List ℕ)) (vs : List J.json) → Made ss vs → strings_of J vs ≡ ss
  unfolding strings_of
  strings_of-Made _ _ no_more = refl
  strings_of-Made _ (v ∷ vs) (next {s = s} {ss = ss} e m) =
      ap (λ o. push_string J o (strings_of J vs)) e ∙ ap (◌∷◌ s) (strings_of-Made ss vs m)

  -- An array of strings that has been set in an object is read back as the list of the strings, if
  -- an array is no string. A member that is not there is reported with BID_S_OK, too.
  pub get-set_strings :
      (o o' : J.json) (k l : List ℕ) (ss : List (List ℕ)) (vs : List J.json)
      → Made ss vs
      → J.string_value (J.array vs) ≡ none
      → json_object_set J o k (some (J.array vs)) false ≡ (ok, o')
      → k ≢ l
      → J.object_get o l ≡ none
      → (get_json_string_value_array J (some o') (some k) ≡ (ok, some ss))
        × (get_json_string_value_array J (some o') (some l) ≡ (ok, none))
  unfolding get_json_string_value_array collect_strings
  get-set_strings o o' k l ss vs m no_text e ne missing =
      let u = json_object_set-Updated J L o o' (J.array vs) k false e in
      (
        ap (λ j. returned J (collect_strings J j)) u.here
            ∙ (ap₂ (λ t i. returned J (value_strings J t i)) no_text (L.array_items-array vs)
                ∙ ap (λ x. (ok, some x)) (strings_of-Made ss vs m)),
        ap (λ j. returned J (collect_strings J j)) (u.elsewhere l ne ∙ missing),
      )
