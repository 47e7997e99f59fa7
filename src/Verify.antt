-- ===== src/Verify.antt =====
-- libbrowserid/bid_verify.c: the checks of an assertion's times and audience. Times are `time_t`
-- whose differences fit 64 bits.
pub mod Expiry
pub mod Audience
pub mod Bindings
mod Tests
use libbrowserid.Prelude.{
  ℕ, suc, ◌≡◌, Bool, true, false, not, ◌||◌, ◌&&◌, List, [], ◌∷◌, Option, none, some, length,
  if◌then◌else◌, ◌==◌,
}
use libbrowserid.Prelude.Int.{ℤ, pos, ltb_ℤ, ◌+ℤ◌, ◌-ℤ◌}
use libbrowserid.Status.{
  Result, good, bad, BidError, ok, invalid_assertion, assertion_not_yet_valid, expired_assertion,
  unknown_json_key, bad_audience, missing_audience, missing_channel_bindings,
  channel_bindings_mismatch,
}
use libbrowserid.Base64.{codes, Decoded, decoded, failed, aborted, overread, stuck}
use libbrowserid.Spn.{str_eq, host_prefix, hostify_spn}
use libbrowserid.Json.{Jansson, get, string_of, get_json_timestamp_value, get_json_binary_value}

abbrev pub is_ok : BidError → Bool
is_ok ok = true
is_ok _ = false

abbrev pub is_unknown_key : BidError → Bool
is_unknown_key unknown_json_key = true
is_unknown_key _ = false

-- `a - b > context->Skew`, where the 32-bit `Skew` is converted to `time_t`.
abbrev pub exceeds : ℤ → ℤ → ℕ → Bool
exceeds a b skew = ltb_ℤ (pos skew) (a -ℤ b)

abbrev pub is_zero : ℤ → Bool
is_zero (pos n) = n == 0
is_zero _ = false

-- The three parts of `_BIDValidateExpiry`, each from its `_BIDGetJsonTimestampValue` on: `iat`,
-- `nbf`, and `exp` with its default.
abbrev pub check_issued : ℕ → ℤ → BidError × ℤ → BidError → BidError
check_issued skew now (err, issued) rest =
    if is_ok err && exceeds issued now skew then invalid_assertion else rest

abbrev pub check_not_before : ℕ → ℤ → BidError × ℤ → BidError → BidError
check_not_before skew now (err, not_before) rest =
    if is_ok err && exceeds not_before now skew then assertion_not_yet_valid else rest

abbrev pub default_expiry : ℕ → ℤ → BidError × ℤ → BidError × ℤ
default_expiry skew issued (err, expiry) =
    if is_unknown_key err && not (is_zero issued) then (ok, issued +ℤ pos skew) else (err, expiry)

abbrev pub check_expired : ℕ → ℤ → BidError × ℤ → BidError
check_expired skew now (err, expiry) =
    if is_ok err then (if exceeds now expiry skew then expired_assertion else ok) else err

module _ (J : Jansson) where
  -- `_BIDValidateExpiry`; the context is its `Skew`.
  unfoldable pub validate_expiry : ℕ → ℤ → Option J.json → BidError
  validate_expiry skew now jwt =
      let issued = get_json_timestamp_value J jwt (codes "iat") in
      check_issued skew now issued (
        check_not_before skew now (get_json_timestamp_value J jwt (codes "nbf")) (
          check_expired skew now
            (default_expiry skew issued.1 (get_json_timestamp_value J jwt (codes "exp")))))

-- `strncmp(s, prefix, strlen(prefix)) == 0`
abbrev pub starts_with : List ℕ → List ℕ → Bool
starts_with s [] = true
starts_with [] (y ∷ ys) = false
starts_with (x ∷ xs) (y ∷ ys) = let rest = starts_with xs ys in (x == y) && rest

abbrev pub compare_alias : List ℕ → Result (List ℕ) → BidError
compare_alias assertion_spn (bad e) = e
compare_alias assertion_spn (good spn) = if str_eq assertion_spn spn then ok else bad_audience

-- `_BIDValidateAudienceHostAlias`
unfoldable pub validate_audience_host_alias : List ℕ → List ℕ → BidError
validate_audience_host_alias audience assertion_spn =
    if starts_with assertion_spn host_prefix
    then compare_alias assertion_spn (hostify_spn audience)
    else bad_audience

-- The audience of `_BIDValidateAudience`, if the caller gives one; the flag is
-- BID_CONTEXT_HOST_SPN_ALIAS.
unfoldable pub check_audience : Bool → List ℕ → Option (List ℕ) → BidError
unfolding validate_audience_host_alias
check_audience alias audience none = missing_audience
check_audience alias audience (some assertion_spn) =
    if str_eq audience assertion_spn
    then ok
    else if alias
    then validate_audience_host_alias audience assertion_spn
    else bad_audience

-- The loop of `_BIDTimingSafeCompare`; `ret` is only tested for zero.
unfoldable pub timing_safe_compare : ℕ → Bool → List ℕ → List ℕ → Bool
timing_safe_compare (suc n) ret (x ∷ xs) (y ∷ ys) =
    timing_safe_compare n (ret || not (x == y)) xs ys
timing_safe_compare _ ret _ _ = ret

-- The channel bindings of `_BIDValidateAudience`; `none` is a read outside the encoded string.
unfoldable pub check_bindings : List ℕ → Decoded → Option BidError
unfolding timing_safe_compare
check_bindings bindings (decoded bytes) = some (
    if not (length bindings == length bytes)
      || timing_safe_compare (length bytes) false bindings bytes
    then channel_bindings_mismatch
    else ok)
check_bindings bindings (failed e) = some (if is_unknown_key e then missing_channel_bindings else e)
check_bindings bindings _ = none

module _ (J : Jansson) where
  abbrev audience_status : Bool → J.json → Option (List ℕ) → BidError
  audience_status alias claims none = ok
  audience_status alias claims (some audience) =
      check_audience alias audience (string_of J (J.object_get claims (codes "aud")))

  abbrev bindings_status : J.json → Option (List ℕ) → Option BidError
  bindings_status claims none = some ok
  bindings_status claims (some bindings) =
      check_bindings bindings (get_json_binary_value J (some claims) (codes "cb"))

  -- `_BIDValidateAudience`, with the payload of the assertion, the audience and the channel
  -- bindings, each NULL or not.
  unfoldable pub validate_audience :
      Bool → Option J.json → Option (List ℕ) → Option (List ℕ) → Option BidError
  unfolding check_audience check_bindings
  validate_audience alias none audience bindings = some missing_audience
  validate_audience alias (some claims) audience bindings =
      let err = audience_status alias claims audience in
      if is_ok err then bindings_status claims bindings else some err
