-- ===== src/Verify/Audience.antt =====
-- The audiences and channel bindings that `_BIDValidateAudience` accepts.
use mathlib.Core.Path.{subst}
use libbrowserid.Prelude.{
  ℕ, ◌≡◌, ◌↔◌, ◌⊎◌, refl, sym, ap, ◌∙◌, List, [], ◌∷◌, ◌++◌, length, some, Bool, true, false, not,
  ◌||◌, arith, Bool-cases, inl, inr, if◌then◌else◌, ◌==◌,
}
use libbrowserid.Status.{ok, bad_audience, good, bad}
use libbrowserid.Spn.{str_eq, host_prefix, hostify_spn}
use libbrowserid.Spn.Strings.{str_eq_iff}
use libbrowserid.Spn.Hostify.{hostify_spn-cases}
use libbrowserid.Verify.{
  starts_with, compare_alias, validate_audience_host_alias, check_audience, timing_safe_compare,
}

pub timing_safe_compare→eq :
    (ret : Bool) (xs ys : List ℕ)
    → length xs ≡ length ys
    → timing_safe_compare (length ys) ret xs ys ≡ false
    → (ret ≡ false) × (xs ≡ ys)
unfolding timing_safe_compare
timing_safe_compare→eq ret [] [] l h = (h, refl)
timing_safe_compare→eq ret [] (y ∷ ys) l h = absurd (omega arith)
timing_safe_compare→eq ret (x ∷ xs) [] l h = absurd (omega arith)
timing_safe_compare→eq ret (x ∷ xs) (y ∷ ys) l h =
    let (r, same) = timing_safe_compare→eq (ret || not (x == y)) xs ys (omega arith) h in
    ground arith

pub timing_safe_compare_self : (xs : List ℕ) → timing_safe_compare (length xs) false xs xs ≡ false
unfolding timing_safe_compare
timing_safe_compare_self [] = refl
timing_safe_compare_self (x ∷ xs) =
    let e : (false || not (x == x)) ≡ false = ground arith in
    ap (λ r. timing_safe_compare (length xs) r xs xs) e ∙ timing_safe_compare_self xs

-- The audience is the one of the assertion or, with aliases, a name of that host.
abbrev pub AcceptsAudience : Bool → List ℕ → List ℕ → Type 0
AcceptsAudience alias audience spn =
    (audience ≡ spn) ⊎ ((alias ≡ true) × (hostify_spn audience ≡ good spn))

starts_with-append : (t rest : List ℕ) → starts_with (t ++ rest) t ≡ true
starts_with-append [] rest = refl
starts_with-append (x ∷ t) rest = ground (arith, starts_with-append t rest)

alias_own :
    (audience x : List ℕ)
    → hostify_spn audience ≡ good (host_prefix ++ x)
    → validate_audience_host_alias audience (host_prefix ++ x) ≡ ok
unfolding validate_audience_host_alias
alias_own audience x e =
    let own = host_prefix ++ x in
    ap (λ b. if b then compare_alias own (hostify_spn audience) else bad_audience)
      (starts_with-append host_prefix x)
    ∙ (ap (compare_alias own) e
        ∙ ap (λ b. if b then ok else bad_audience) ((str_eq_iff own own).1 refl))

alias_iff :
    (audience spn : List ℕ)
    → (validate_audience_host_alias audience spn ≡ ok) ↔ (hostify_spn audience ≡ good spn)
unfolding validate_audience_host_alias
alias_iff audience spn = elim (hostify_spn-cases audience) [
  | inl e ↦ (
    (λ h. absurd (
        no_host (starts_with spn host_prefix) (
          sym
            (ap (λ r. if starts_with spn host_prefix then compare_alias spn r else bad_audience) e)
          ∙ h))),
    (λ h. absurd (let c : bad bad_audience ≡ good spn = sym e ∙ h in cc)),
  )
  | inr (x, e) ↦ (
    (λ h.
        e
        ∙ ap good (
            same_host (starts_with spn host_prefix) x (
              sym (
                ap (λ r. if starts_with spn host_prefix then compare_alias spn r else bad_audience)
                  e)
              ∙ h))),
    (λ h.
        let same : host_prefix ++ x ≡ spn = let c = sym e ∙ h in cc in
        subst (λ t. validate_audience_host_alias audience t ≡ ok) same (alias_own audience x e)),
  )
]
  where
    no_host : (b : Bool) → (if b then bad_audience else bad_audience) ≡ ok → ⊥
    no_host true h = cc
    no_host false h = cc

    same_host :
        (b : Bool) (x : List ℕ)
        → (if b then (if str_eq spn (host_prefix ++ x) then ok else bad_audience) else bad_audience)
          ≡ ok
        → host_prefix ++ x ≡ spn
    same_host true x h = sym ((str_eq_iff spn (host_prefix ++ x)).0 (ground arith))
    same_host false x h = cc

pub check_audience_iff :
    (alias : Bool) (audience spn : List ℕ)
    → (check_audience alias audience (some spn) ≡ ok) ↔ AcceptsAudience alias audience spn
unfolding check_audience
check_audience_iff alias audience spn =
    let (f, g) = str_eq_iff audience spn in
    elim (Bool-cases (str_eq audience spn)) [
      | inl same ↦ rw same ((λ h. inl (f same)), (λ h. refl))
      | inr other ↦ rw other (alias_or alias (λ e. absurd (let c = sym (g e) ∙ other in cc)))
    ]
  where
    alias_or :
        (b : Bool)
        → ¬ (audience ≡ spn)
        → ((if b then validate_audience_host_alias audience spn else bad_audience) ≡ ok)
          ↔ AcceptsAudience b audience spn
    alias_or true ne = (
      (λ h. inr (refl, (alias_iff audience spn).0 h)),
      (λ h. elim h [ inl e ↦ absurd (ne e) | inr (t, e) ↦ (alias_iff audience spn).1 e ]),
    )
    alias_or false ne = (
      (λ h. cc),
      (λ h. elim h [
        | inl e ↦ absurd (ne e)
        | inr (t, e) ↦ absurd (let c : false ≡ true = t in cc)
      ]),
    )
