-- ===== src/Json.antt =====
-- The values of JSON as libbrowserid/bid_util.c reads and writes them. The JSON library is not part
-- of the repository: its operations are the fields of `Jansson`, and what the source relies on are
-- the laws of `IsJansson`.
pub mod Access
pub mod Change
pub mod Model
pub mod Strings
pub mod Opts
mod Tests
use libbrowserid.Prelude.{
  ℕ, ◌^◌, ◌≤◌, ◌<◌, ◌≡◌, ◌≢◌, List, Option, none, some, All, Bool, true, false, if◌then◌else◌,
}
use libbrowserid.Prelude.Int.{ℤ, pos, above, below, thousandth, thousand_times}
use libbrowserid.Status.{Result, good, bad, BidError, ok, ◌>>=◌, unknown_json_key, no_memory}
use libbrowserid.Base64.{codes, base64_url_encode, base64_url_decode, Decoded, failed}

-- A value is `json_t`, without its reference count. What fails with NULL or -1 is an option. An
-- operation that changes an object returns it.
pub record Jansson : Type 1 where
  pub json : Type 0
  pub object_get : json → List ℕ → Option json
  pub object_set : json → List ℕ → json → Option json
  pub object_del : json → List ℕ → Option json
  pub string : List ℕ → Option json
  pub string_value : json → Option (List ℕ)
  pub integer : ℤ → json
  pub integer_value : json → ℤ
  pub array : List json → json
  pub object : Option json
  pub copy : json → Option json
  -- `json_is_array`, `json_array_size` and `json_array_get`.
  pub array_items : json → Option (List json)

abbrev pub IsAscii : ℕ → Type 0
IsAscii c = (0 < c) × (c < 2 ^ 7)

-- A value of `json_int_t`.
abbrev pub IsInt64 : ℤ → Type 0
IsInt64 z = (above z < 2 ^ 63) × (below z ≤ 2 ^ 63)

pub record IsJansson (J : Jansson) : Type 0 where
  pub get-set :
      (o o' v : J.json) (k : List ℕ) → J.object_set o k v ≡ some o' → J.object_get o' k ≡ some v
  pub get-set_ne :
      (o o' v : J.json) (k l : List ℕ)
      → k ≢ l
      → J.object_set o k v ≡ some o'
      → J.object_get o' l ≡ J.object_get o l
  pub string-ascii :
      (s : List ℕ)
      → All IsAscii s
      → (j : J.json) × (J.string s ≡ some j) × (J.string_value j ≡ some s)
  pub integer_value-integer : (z : ℤ) → IsInt64 z → J.integer_value (J.integer z) ≡ z
  pub array_items-array : (js : List J.json) → J.array_items (J.array js) ≡ some js
  pub get-object : (o : J.json) (k : List ℕ) → J.object ≡ some o → J.object_get o k ≡ none
  pub get-copy :
      (o o' : J.json) (k : List ℕ) → J.copy o ≡ some o' → J.object_get o' k ≡ J.object_get o k
  -- A member that is there is deleted, and one that is not there is an error.
  pub get-del :
      (o v : J.json) (k : List ℕ)
      → J.object_get o k ≡ some v
      → (o' : J.json) × (J.object_del o k ≡ some o')
        × (J.object_get o' k ≡ none)
        × ((l : List ℕ) → k ≢ l → J.object_get o' l ≡ J.object_get o l)
  pub del_absent : (o : J.json) (k : List ℕ) → J.object_get o k ≡ none → J.object_del o k ≡ none

module _ (J : Jansson) where
  -- `json_object_get` and `json_string_value` of a pointer that may be NULL.
  abbrev pub get : Option J.json → List ℕ → Option J.json
  get none k = none
  get (some o) k = J.object_get o k

  abbrev pub string_of : Option J.json → Option (List ℕ)
  string_of none = none
  string_of (some j) = J.string_value j

  -- `_BIDJsonObjectDel`
  unfoldable pub json_object_del : J.json → List ℕ → Bool → BidError × J.json
  json_object_del dst key required = elim (J.object_del dst key) [
    | none ↦ (if required then unknown_json_key else ok, dst)
    | some o ↦ (ok, o)
  ]

  -- The outcome of `json_object_set`: its -1 is BID_S_NO_MEMORY.
  abbrev pub set_status : J.json → Option J.json → BidError × J.json
  set_status dst none = (no_memory, dst)
  set_status dst (some o) = (ok, o)

  -- `_BIDJsonObjectSetOld` and `_BIDJsonObjectSetNew`, which differ in the count of references.
  unfoldable pub json_object_set : J.json → List ℕ → Option J.json → Bool → BidError × J.json
  unfolding json_object_del
  json_object_set dst key none required =
      if required then (unknown_json_key, dst) else json_object_del dst key false
  json_object_set dst key (some src) required = set_status dst (J.object_set dst key src)

  -- What is left of a change behind `BID_BAIL_ON_ERROR`.
  abbrev pub stored : BidError × J.json → Result J.json
  stored (ok, o) = good o
  stored (e, o) = bad e

  -- `_BIDJsonObjectSet` behind `BID_BAIL_ON_ERROR`; the flag is BID_JSON_FLAG_REQUIRED.
  abbrev pub put : J.json → List ℕ → Option J.json → Bool → Result J.json
  put dst key value required = stored (json_object_set dst key value required)

  -- `_BIDGetJsonStringValue`
  pub get_json_string_value : Option J.json → List ℕ → Result (List ℕ)
  get_json_string_value json key = elim (string_of (get json key)) [
    | none ↦ bad unknown_json_key
    | some s ↦ good s
  ]

  -- A value that is NULL if it cannot be made.
  abbrev pub allocated : Option J.json → Result J.json
  allocated none = bad no_memory
  allocated (some j) = good j

  -- `_BIDJsonBinaryValue`
  unfoldable pub json_binary_value : List ℕ → Result J.json
  json_binary_value bytes = do s ← base64_url_encode bytes; allocated (J.string s)

  abbrev pub set_binary : J.json → List ℕ → Result J.json → BidError × J.json
  set_binary dst key (bad e) = (e, dst)
  set_binary dst key (good v) = json_object_set dst key (some v) false

  -- `_BIDJsonObjectSetBinaryValue`
  pub json_object_set_binary_value : J.json → List ℕ → List ℕ → BidError × J.json
  json_object_set_binary_value dst key bytes = set_binary dst key (json_binary_value bytes)

  abbrev pub binary_of : Option (List ℕ) → Decoded
  binary_of none = failed unknown_json_key
  binary_of (some s) = base64_url_decode s none

  -- `_BIDGetJsonBinaryValue`, with `*pbData` NULL.
  unfoldable pub get_json_binary_value : Option J.json → List ℕ → Decoded
  get_json_binary_value json key = binary_of (string_of (get json key))

  abbrev pub timestamp_of : Option J.json → BidError × ℤ
  timestamp_of none = (unknown_json_key, pos 0)
  timestamp_of (some j) = (ok, thousandth (J.integer_value j))

  -- `_BIDGetJsonTimestampValue`: the status, and what is stored in `*ts`.
  unfoldable pub get_json_timestamp_value : Option J.json → List ℕ → BidError × ℤ
  get_json_timestamp_value json key = timestamp_of (get json key)

  -- `_BIDSetJsonTimestampValue`
  unfoldable pub set_json_timestamp_value : J.json → List ℕ → ℤ → BidError × J.json
  unfolding json_object_set
  set_json_timestamp_value json key ts =
      json_object_set json key (some (J.integer (thousand_times ts))) false
