-- ===== src/Verify/Bindings.antt =====
-- The assertions that `_BIDValidateAudience` accepts.
use mathlib.Core.Path.{subst}
use libbrowserid.Prelude.{
  ℕ, ◌≡◌, ◌≢◌, ◌↔◌, refl, sym, ap, ◌∙◌, List, length, Option, none, some, Bool, true, false, not,
  ◌||◌, Bool-cases, inl, inr, ◌==◌, if◌then◌else◌, arith,
}
use libbrowserid.Status.{
  BidError, ok, invalid_base64, missing_channel_bindings, channel_bindings_mismatch,
}
use libbrowserid.Base64.{codes, Decoded, decoded, failed, aborted, overread, stuck}
use libbrowserid.Base64.Bounds.{Within, EndsLone, decode-Within}
use libbrowserid.Json.{Jansson, string_of, binary_of, get_json_binary_value}
use libbrowserid.Verify.{
  is_ok, is_unknown_key, check_audience, timing_safe_compare, check_bindings, audience_status,
  bindings_status, validate_audience,
}
use libbrowserid.Verify.Audience.{
  AcceptsAudience, check_audience_iff, timing_safe_compare→eq, timing_safe_compare_self,
}

binary_of-ne : (J : Jansson) (o : Option (List ℕ)) → binary_of J o ≢ failed ok
binary_of-ne J none h = cc
binary_of-ne J (some s) h =
    absurd (
      let c : ok ≡ invalid_base64 = subst (Within (length s) (EndsLone s)) h (decode-Within s) in
      cc)

abbrev mismatch : List ℕ → List ℕ → Bool
mismatch b x = not (length b == length x) || timing_safe_compare (length x) false b x

mismatch_self : (b : List ℕ) → mismatch b b ≡ false
mismatch_self b =
    let e : (length b == length b) ≡ true = ground arith in
    let t = timing_safe_compare_self b in ground arith

mismatch→eq : (b x : List ℕ) → mismatch b x ≡ false → x ≡ b
mismatch→eq b x h =
    let l : length b ≡ length x = ground arith in
    let t : timing_safe_compare (length x) false b x ≡ false = ground arith in
    sym (timing_safe_compare→eq false b x l t).1

verdict_iff :
    (t : Bool) → (some (if t then channel_bindings_mismatch else ok) ≡ some ok) ↔ (t ≡ false)
verdict_iff true = ((λ h. cc), (λ h. cc))
verdict_iff false = ((λ h. refl), (λ h. refl))

failed-ne :
    (e : BidError)
    → e ≢ ok
    → some (if is_unknown_key e then missing_channel_bindings else e) ≢ some ok
failed-ne e ne h = elim (Bool-cases (is_unknown_key e)) [
  | inl k ↦ absurd (let c = rw k at h in cc)
  | inr k ↦ ne (let c = rw k at h in cc)
]

check_bindings_iff :
    (bindings : List ℕ) (d : Decoded)
    → d ≢ failed ok
    → (check_bindings bindings d ≡ some ok) ↔ (d ≡ decoded bindings)
unfolding check_bindings
check_bindings_iff b (decoded x) ne =
    let (f, g) = verdict_iff (mismatch b x) in
    (
      (λ h. ap decoded (mismatch→eq b x (f h))),
      (λ h.
          let same : b ≡ x = let c : x ≡ b = cc in sym c in
          g (subst (λ y. mismatch b y ≡ false) same (mismatch_self b))),
    )
check_bindings_iff b (failed e) ne =
    ((λ h. absurd (failed-ne e (λ k. ne (ap failed k)) h)), (λ h. cc))
check_bindings_iff b aborted ne = ((λ h. cc), (λ h. cc))
check_bindings_iff b overread ne = ((λ h. cc), (λ h. cc))
check_bindings_iff b stuck ne = ((λ h. cc), (λ h. cc))

pub is_ok→eq : (e : BidError) → is_ok e ≡ true → e ≡ ok
is_ok→eq ok h = refl
is_ok→eq _ h = cc

both :
    (err : BidError) (rest : Option BidError)
    → ((if is_ok err then rest else some err) ≡ some ok) ↔ ((err ≡ ok) × (rest ≡ some ok))
both err rest = elim (Bool-cases (is_ok err)) [
  | inl fine ↦ rw fine ((λ h. (is_ok→eq err fine, h)), (λ h. h.1))
  | inr fails ↦ rw fails (
    (λ h. let e : err ≡ ok = cc in absurd (let c : true ≡ false = ap is_ok (sym e) ∙ fails in cc)),
    (λ h. absurd (let c : true ≡ false = ap is_ok (sym h.0) ∙ fails in cc)),
  )
]

-- What the assertion says of the audience and of the channel bindings that the caller asks for.
abbrev pub AudienceOk : (J : Jansson) → Bool → J.json → Option (List ℕ) → Type 0
AudienceOk J alias claims none = Unit
AudienceOk J alias claims (some audience) =
    (spn : List ℕ) × (string_of J (J.object_get claims (codes "aud")) ≡ some spn)
    × AcceptsAudience alias audience spn

abbrev pub BindingsOk : (J : Jansson) → J.json → Option (List ℕ) → Type 0
BindingsOk J claims none = Unit
BindingsOk J claims (some bindings) =
    get_json_binary_value J (some claims) (codes "cb") ≡ decoded bindings

module _ (J : Jansson) (alias : Bool) (claims : J.json) where
  audience_status_iff :
      (audience : Option (List ℕ))
      → (audience_status J alias claims audience ≡ ok) ↔ AudienceOk J alias claims audience
  unfolding check_audience
  audience_status_iff none = ((λ h. tt), (λ h. refl))
  audience_status_iff (some a) = from (string_of J (J.object_get claims (codes "aud")))
    where
      from :
          (o : Option (List ℕ))
          → (check_audience alias a o ≡ ok)
            ↔ ((spn : List ℕ) × (o ≡ some spn) × AcceptsAudience alias a spn)
      from none = ((λ h. cc), (λ (spn, e, _). cc))
      from (some spn) =
          let (f, g) = check_audience_iff alias a spn in
          (
            (λ h. (spn, refl, f h)),
            (λ (t, e, h).
                let same : t ≡ spn = let c : spn ≡ t = cc in sym c in
                g (subst (AcceptsAudience alias a) same h)),
          )

  bindings_status_iff :
      (bindings : Option (List ℕ))
      → (bindings_status J claims bindings ≡ some ok) ↔ BindingsOk J claims bindings
  unfolding get_json_binary_value
  bindings_status_iff none = ((λ h. tt), (λ h. refl))
  bindings_status_iff (some b) =
      check_bindings_iff b _ (binary_of-ne J (string_of J (J.object_get claims (codes "cb"))))

  -- `_BIDValidateAudience` accepts exactly the payloads that name the audience the caller asks for
  -- (or, with host aliases, the host name made of it) and hold the channel bindings that it asks
  -- for, byte by byte in base64.
  pub validate_audience_iff :
      (audience bindings : Option (List ℕ))
      → (validate_audience J alias (some claims) audience bindings ≡ some ok)
        ↔ (AudienceOk J alias claims audience × BindingsOk J claims bindings)
  unfolding validate_audience
  validate_audience_iff audience bindings =
      let (f, g) =
        both (audience_status J alias claims audience) (bindings_status J claims bindings) in
      let (fa, ga) = audience_status_iff audience in
      let (fb, gb) = bindings_status_iff bindings in
      ((λ h. let (p, q) = f h in (fa p, fb q)), (λ h. g (ga h.0, gb h.1)))
