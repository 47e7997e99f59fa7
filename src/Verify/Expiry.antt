-- ===== src/Verify/Expiry.antt =====
-- The times at which `_BIDValidateExpiry` accepts an assertion.
use libbrowserid.Prelude.{
  ℕ, ◌+◌, ◌≤◌, ◌<◌, ◌≡◌, ◌≢◌, ◌↔◌, refl, sym, ◌∙◌, Option, none, some, Bool, true, false, arith,
  Bool-cases, inl, inr, if◌then◌else◌,
}
use libbrowserid.Prelude.Int.{ℤ, pos, negsuc, above, below, ◌+ℤ◌, +ℤ_lem, -ℤ_lem, thousandth}
use libbrowserid.Status.{
  BidError, ok, invalid_assertion, assertion_not_yet_valid, expired_assertion, unknown_json_key,
}
use libbrowserid.Base64.{codes}
use libbrowserid.Json.{Jansson, get, timestamp_of, get_json_timestamp_value}
use libbrowserid.Verify.{
  exceeds, is_zero, check_issued, check_not_before, default_expiry, check_expired, validate_expiry,
}

-- `a` is at most `skew` later than `b`.
abbrev pub NotAfter : ℕ → ℤ → ℤ → Type 0
NotAfter skew a b = above a + below b ≤ above b + below a + skew

exceeds-NotAfter : (a b : ℤ) (skew : ℕ) → (exceeds a b skew ≡ false) ↔ NotAfter skew a b
exceeds-NotAfter a b skew = let l = -ℤ_lem a b in ((λ h. ground arith), (λ h. ground arith))

-- A time of the payload, in seconds, if the payload has it.
abbrev pub seconds : (J : Jansson) → Option J.json → Option ℤ
seconds J none = none
seconds J (some j) = some (thousandth (J.integer_value j))

abbrev pub NotAfterNow : ℕ → ℤ → Option ℤ → Type 0
NotAfterNow skew now none = Unit
NotAfterNow skew now (some t) = NotAfter skew t now

abbrev pub NotExpired : ℕ → ℤ → Option ℤ → Option ℤ → Type 0
NotExpired skew now issued (some expiry) = NotAfter skew now expiry
NotExpired skew now none none = ⊥
NotExpired skew now (some issued) none =
    (0 < above issued + below issued) × NotAfter (skew + skew) now issued

-- Neither `iat` nor `nbf` is in the future by more than the skew, and the expiry is not in the past
-- by more. Without `exp` the assertion expires one skew after `iat`, which then has to be there
-- and not be zero.
pub record IsCurrent (J : Jansson) (skew : ℕ) (now : ℤ) (jwt : Option J.json) : Type 0 where
  pub issued : NotAfterNow skew now (seconds J (get J jwt (codes "iat")))
  pub begun : NotAfterNow skew now (seconds J (get J jwt (codes "nbf")))
  pub unexpired :
      NotExpired skew now
        (seconds J (get J jwt (codes "iat")))
        (seconds J (get J jwt (codes "exp")))

abbrev status_of : Option ℤ → BidError × ℤ
status_of none = (unknown_json_key, pos 0)
status_of (some t) = (ok, t)

status_of-seconds : (J : Jansson) (o : Option J.json) → timestamp_of J o ≡ status_of (seconds J o)
status_of-seconds J none = refl
status_of-seconds J (some j) = refl

abbrev expiry_status : ℕ → ℤ → Option ℤ → Option ℤ → Option ℤ → BidError
expiry_status skew now issued begun expiry = check_issued skew now (status_of issued) (
    check_not_before skew now (status_of begun)
      (check_expired skew now (default_expiry skew (status_of issued).1 (status_of expiry))))

is_zero_lem : (z : ℤ) → (is_zero z ≡ false) ↔ (0 < above z + below z)
is_zero_lem (pos n) = ground arith
is_zero_lem (negsuc n) = ground arith

-- A test before the rest of a function: the function succeeds if the test is passed and the rest
-- succeeds.
guarded :
    (b : Bool) (e rest : BidError) (P : Type 0)
    → ((b ≡ false) ↔ P)
    → e ≢ ok
    → ((if b then e else rest) ≡ ok) ↔ (P × (rest ≡ ok))
guarded true e rest P (f, g) ne = ((λ h. absurd (ne h)), (λ h. absurd (let c = g h.0 in cc)))
guarded false e rest P (f, g) ne = ((λ h. (f refl, h)), (λ h. h.1))

module _ (skew : ℕ) (now : ℤ) where
  check_issued-ok :
      (o : Option ℤ) (rest : BidError)
      → (check_issued skew now (status_of o) rest ≡ ok) ↔ (NotAfterNow skew now o × (rest ≡ ok))
  check_issued-ok none rest = ((λ h. (tt, h)), (λ h. h.1))
  check_issued-ok (some t) rest =
      guarded (exceeds t now skew) invalid_assertion rest _ (exceeds-NotAfter t now skew) (λ h. cc)

  check_not_before-ok :
      (o : Option ℤ) (rest : BidError)
      → (check_not_before skew now (status_of o) rest ≡ ok) ↔ (NotAfterNow skew now o × (rest ≡ ok))
  check_not_before-ok none rest = ((λ h. (tt, h)), (λ h. h.1))
  check_not_before-ok (some t) rest =
      guarded (exceeds t now skew) assertion_not_yet_valid rest _ (exceeds-NotAfter t now skew)
        (λ h. cc)

  check_expired-ok :
      (expiry : ℤ) → (check_expired skew now (ok, expiry) ≡ ok) ↔ NotAfter skew now expiry
  check_expired-ok expiry =
      let (f, g) =
        guarded (exceeds now expiry skew) expired_assertion ok _ (exceeds-NotAfter now expiry skew)
          (λ h. cc) in
      ((λ h. (f h).0), (λ h. g (h, refl)))

  default_expiry-ok :
      (issued expiry : Option ℤ)
      → (check_expired skew now (default_expiry skew (status_of issued).1 (status_of expiry)) ≡ ok)
        ↔ NotExpired skew now issued expiry
  default_expiry-ok issued (some expiry) = check_expired-ok expiry
  default_expiry-ok none none = ((λ h. cc), (λ h. absurd h))
  default_expiry-ok (some t) none = elim (Bool-cases (is_zero t)) [
    | inl zero_time ↦ rw zero_time ((λ h. cc), (λ h. absurd (let c = (is_zero_lem t).1 h.0 in cc)))
    | inr later ↦ rw later (
        let (f, g) = check_expired-ok (t +ℤ pos skew) in
        let l = +ℤ_lem t (pos skew) in
        (
          (λ h. ((is_zero_lem t).0 later, (let k = f h in omega arith))),
          (λ h. g (let k = h.1 in omega arith)),
        ))
  ]

  expiry_status-ok :
      (issued begun expiry : Option ℤ)
      → (expiry_status skew now issued begun expiry ≡ ok) ↔ (
          NotAfterNow skew now issued
          × NotAfterNow skew now begun
          × NotExpired skew now issued expiry)
  expiry_status-ok i b x =
      let (f1, g1) = check_issued-ok i _ in
      let (f2, g2) = check_not_before-ok b _ in
      let (f3, g3) = default_expiry-ok i x in
      (
        (λ h. let (p, h') = f1 h in let (q, h'') = f2 h' in (p, q, f3 h'')),
        (λ h. g1 (h.0, g2 (h.1, g3 h.2))),
      )

-- `_BIDValidateExpiry` accepts exactly the assertions that are current at the time of the
-- verification: neither issued nor beginning in the future by more than the skew, and not expired
-- by more than the skew, where an assertion without `exp` expires one skew after its (non-zero)
-- time of issue.
pub validate_expiry-IsCurrent :
    (J : Jansson) (skew : ℕ) (now : ℤ) (jwt : Option J.json)
    → (validate_expiry J skew now jwt ≡ ok) ↔ IsCurrent J skew now jwt
unfolding validate_expiry get_json_timestamp_value
validate_expiry-IsCurrent J skew now jwt =
    let i = seconds J (get J jwt (codes "iat")) in
    let b = seconds J (get J jwt (codes "nbf")) in
    let x = seconds J (get J jwt (codes "exp")) in
    let (f, g) = expiry_status-ok skew now i b x in
    let same : validate_expiry J skew now jwt ≡ expiry_status skew now i b x =
      rw
        (
          status_of-seconds J (get J jwt (codes "iat")),
          status_of-seconds J (get J jwt (codes "nbf")),
          status_of-seconds J (get J jwt (codes "exp")),
        )
        refl in
    (
      (λ h. let (p, q, r) = f (sym same ∙ h) in record { issued = p; begun = q; unexpired = r }),
      (λ h. same ∙ g (h.issued, h.begun, h.unexpired)),
    )
