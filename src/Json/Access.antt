-- ===== src/Json/Access.antt =====
-- What is set in an object is read back, and nothing else is changed.
use libbrowserid.Prelude.{
  ℕ, ◌^◌, ◌<◌, ◌≡◌, ◌≢◌, refl, ap, sym, ◌∙◌, List, Option, none, some, All, IsByte, length, Bool,
  false,
}
use libbrowserid.Prelude.Int.{ℤ, thousand_times, thousandth, thousandth-thousand_times}
use libbrowserid.Status.{good, ok, no_memory, ◌>>=◌}
use libbrowserid.Base64.{base64_url_encode, decoded}
use libbrowserid.Base64.Ascii.{url_encode-ascii}
use libbrowserid.Base64.Inverse.{decode-url_encode}
use libbrowserid.Json.{
  Jansson, IsJansson, IsInt64, string_of, allocated, timestamp_of, binary_of, set_status,
  set_binary, json_object_set, json_binary_value, json_object_set_binary_value,
  get_json_binary_value, get_json_timestamp_value, set_json_timestamp_value,
}

module _ (J : Jansson) (L : IsJansson J) where
  -- An object that has a value under a key, and otherwise what another object has.
  pub record Updated (o : J.json) (k : List ℕ) (v : J.json) (o' : J.json) : Type 0 where
    pub here : J.object_get o' k ≡ some v
    pub elsewhere : (l : List ℕ) → k ≢ l → J.object_get o' l ≡ J.object_get o l

  pub json_object_set-Updated :
      (o o' v : J.json) (k : List ℕ) (required : Bool)
      → json_object_set J o k (some v) required ≡ (ok, o')
      → Updated o k v o'
  unfolding json_object_set
  json_object_set-Updated o o' v k required e = from (J.object_set o k v) refl e
    where
      from :
          (r : Option J.json)
          → J.object_set o k v ≡ r
          → set_status J o r ≡ (ok, o')
          → Updated o k v o'
      from none q h = absurd (let c : no_memory ≡ ok = ap (λ p. p.0) h in cc)
      from (some x) q h =
          let q' : J.object_set o k v ≡ some o' = q ∙ ap some (ap (λ p. p.1) h) in
          record { here = L.get-set o o' v k q'; elsewhere = λ l ne. L.get-set_ne o o' v k l ne q' }

  -- A time that `_BIDSetJsonTimestampValue` has stored is what `_BIDGetJsonTimestampValue` reads, if
  -- its milliseconds fit 64 bits, and the other members of the object are unchanged.
  pub get-set_json_timestamp_value :
      (o o' : J.json) (k : List ℕ) (ts : ℤ)
      → IsInt64 (thousand_times ts)
      → set_json_timestamp_value J o k ts ≡ (ok, o')
      → (get_json_timestamp_value J (some o') k ≡ (ok, ts))
        × ((l : List ℕ) → k ≢ l → J.object_get o' l ≡ J.object_get o l)
  unfolding set_json_timestamp_value get_json_timestamp_value
  get-set_json_timestamp_value o o' k ts fits e =
      let u = json_object_set-Updated o o' (J.integer (thousand_times ts)) k false e in
      (
        ap (timestamp_of J) u.here
            ∙ ap (λ z. (ok, z))
                (ap thousandth (L.integer_value-integer _ fits) ∙ thousandth-thousand_times ts),
        u.elsewhere,
      )

  binary_value :
      (bytes s : List ℕ)
      → base64_url_encode bytes ≡ good s
      → (v : J.json) × (json_binary_value J bytes ≡ good v) × (J.string_value v ≡ some s)
  unfolding json_binary_value
  binary_value bytes s e =
      let (v, made, text) = L.string-ascii s (url_encode-ascii bytes s e) in
      (v, ap (λ r. r >>= λ t. allocated J (J.string t)) e ∙ ap (allocated J) made, text)

  -- Bytes that `_BIDJsonObjectSetBinaryValue` has stored, fewer than 2^30, are what
  -- `_BIDGetJsonBinaryValue` reads, and the other members of the object are unchanged.
  pub get-set_json_binary_value :
      (o o' : J.json) (k bytes : List ℕ)
      → All IsByte bytes
      → length bytes < 2 ^ 30
      → json_object_set_binary_value J o k bytes ≡ (ok, o')
      → (get_json_binary_value J (some o') k ≡ decoded bytes)
        × ((l : List ℕ) → k ≢ l → J.object_get o' l ≡ J.object_get o l)
  unfolding json_object_set_binary_value get_json_binary_value
  get-set_json_binary_value o o' k bytes b h e =
      let (s, enc, dec) = decode-url_encode bytes b h in
      let (v, made, text) = binary_value bytes s enc in
      let stored : json_object_set J o k (some v) false ≡ (ok, o') =
        sym (ap (set_binary J o k) made) ∙ e in
      let u = json_object_set-Updated o o' v k false stored in
      (ap (λ r. binary_of J (string_of J r)) u.here ∙ ap (binary_of J) text ∙ dec, u.elsewhere)
