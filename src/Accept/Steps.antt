-- ===== src/Accept/Steps.antt =====
-- The state and the status that a step of an acceptor leaves (accept_sec_context.c).
use mathlib.Core.Path.{subst}
use libbrowserid.Prelude.{
  ℕ, ◌≡◌, ◌≢◌, ◌⊎◌, inl, inr, refl, sym, ap, ◌∙◌, Bool, true, false, ◌&&◌, Option, some,
  if◌then◌else◌,
}
use libbrowserid.Status.{BidError, ok}
use libbrowserid.Gss.{Major, complete, failure, continue_needed, is_error}
use libbrowserid.Json.Opts.{has_flag}
use libbrowserid.Accept.{
  State, initial, authenticate, retry_initial, retry_authenticate, extra_round_trip, established,
  Acceptor, Call, map_error, is_recoverable, after_round_trip, with_flags, verified_step,
  state_step, when_complete, needs_response, transition, respond, conclude, is_established,
  accept_step,
}

-- The states of an acceptor.
abbrev pub IsAcceptor : State → Type 0
IsAcceptor authenticate = ⊥
IsAcceptor retry_authenticate = ⊥
IsAcceptor _ = Unit

-- In the state that it had, the call has found what it was to verify to be right: the assertion,
-- or the token of the extra round trip.
abbrev pub Checked : Call → State → Type 0
Checked call initial = (call.verify true).0 ≡ ok
Checked call retry_initial = (call.verify false).0 ≡ ok
Checked call extra_round_trip = call.verify_xrt ≡ ok
Checked call _ = ⊥

map_error_cases : (e : BidError) → (e ≡ ok) ⊎ (is_error (map_error e) ≡ true)
unfolding map_error
map_error_cases ok = inl refl
map_error_cases e = inr refl

-- The status of the switch is that of the code, or GSS_S_CONTINUE_NEEDED; the state stays.
record IsVerified (err : BidError) (ctx : Acceptor) (r : Major × Acceptor) : Type 0 where
  status : (r.0 ≡ continue_needed) ⊎ (r.0 ≡ map_error err)
  unmoved : r.1.state ≡ ctx.state

verified_step-IsVerified :
    (alias : Bool) (err : BidError) (flags : ℕ) (ctx : Acceptor)
    → IsVerified err ctx (verified_step alias (err, flags) ctx)
unfolding verified_step
verified_step-IsVerified alias err flags ctx =
    from (has_flag flags 20) (has_flag flags 0) (is_recoverable alias err)
  where
    from :
        (xrt re recoverable : Bool)
        → IsVerified err ctx (
            with_flags flags (
              after_round_trip xrt (
                if re
                then (if recoverable
                    then (continue_needed, ctx)
                    else (map_error err, record ctx { reauth = true }))
                else (map_error err, ctx))))
    from true true true = record { status = inl refl; unmoved = refl }
    from true true false = record { status = inl refl; unmoved = refl }
    from true false r = record { status = inl refl; unmoved = refl }
    from false true true = record { status = inl refl; unmoved = refl }
    from false true false = record { status = inr refl; unmoved = refl }
    from false false r = record { status = inr refl; unmoved = refl }

and-second : (a b : Bool) → (a && b) ≡ true → b ≡ true
and-second true b h = h
and-second false b h = cc

pub not_both : {b : Bool} {X : Type 0} → b ≡ true → b ≡ false → X
not_both h k = absurd (let c : true ≡ false = sym h ∙ k in cc)

when_complete-error :
    (m ready : Major) → is_error m ≡ true → is_error (when_complete m ready) ≡ true
when_complete-error complete ready h = cc
when_complete-error m ready h = h

respond-error :
    (needed : Bool) (response m : Major)
    → is_error m ≡ true
    → is_error (respond needed response m) ≡ true
respond-error needed response m h = from (needed && is_error response) refl
  where
    from :
        (b : Bool) → (needed && is_error response) ≡ b → is_error (if b then response else m) ≡ true
    from true e = and-second needed (is_error response) e
    from false e = h

-- What a step leaves: a state of an acceptor, which without an error is ESTABLISHED only if the call
-- has been checked.
pub data IsSound (call : Call) (s : State) : Option (Major × Acceptor) → Type 0 where
  sound :
      (major : Major) (ctx : Acceptor)
      → IsAcceptor ctx.state
      → (is_error major ≡ false → ctx.state ≡ established → Checked call s)
      → IsSound call s (some (major, ctx))

transition-IsAcceptor : (major : Major) (ctx : Acceptor) → IsAcceptor (transition major ctx).state
transition-IsAcceptor continue_needed ctx = from ctx.round_trip
  where
    from : (b : Bool) → IsAcceptor (if b then extra_round_trip else retry_initial)
    from true = tt
    from false = tt
transition-IsAcceptor _ ctx = tt

transition-continue : (ctx : Acceptor) → (transition continue_needed ctx).state ≢ established
transition-continue ctx = from ctx.round_trip
  where
    from : (b : Bool) → (if b then extra_round_trip else retry_initial) ≢ established
    from true h = cc
    from false h = cc

-- GSS_S_CONTINUE_NEEDED stays, or is replaced by an error.
continue-kept :
    (needed : Bool) (response : Major)
    → is_error (respond needed response continue_needed) ≡ false
    → respond needed response continue_needed ≡ continue_needed
continue-kept needed response h = from (needed && is_error response) refl h
  where
    from :
        (b : Bool)
        → (needed && is_error response) ≡ b
        → is_error (if b then response else continue_needed) ≡ false
        → (if b then response else continue_needed) ≡ continue_needed
    from true e h = not_both (and-second needed (is_error response) e) h
    from false e h = refl

conclude-IsSound :
    (call : Call) (s : State) (m : Major) (ctx : Acceptor)
    → IsAcceptor ctx.state
    → (is_error m ≡ false → m ≢ continue_needed → Checked call s)
    → IsSound call s (conclude call s (some (m, ctx)))
conclude-IsSound call s m ctx here checked =
    either (needs_response s && is_error status)
      (λ h. and-second (needs_response s) (is_error status) h)
  where
    status : Major
    status = respond (needs_response s) call.response (when_complete m call.ready)

    fine : is_error status ≡ false → (transition status ctx).state ≡ established → Checked call s
    fine ne es = checked (no_error (is_error m) refl) (λ k. moved k ne es)
      where
        no_error : (b : Bool) → is_error m ≡ b → is_error m ≡ false
        no_error true e =
            not_both
              (respond-error (needs_response s) call.response (when_complete m call.ready)
                (when_complete-error m call.ready e))
              ne
        no_error false e = e

        moved :
            m ≡ continue_needed
            → is_error status ≡ false
            → (transition status ctx).state ≡ established
            → ⊥
        moved k ne es =
            let replaced =
              ap (λ x. respond (needs_response s) call.response (when_complete x call.ready)) k in
            let same =
              continue-kept (needs_response s) call.response (sym (ap is_error replaced) ∙ ne) in
            transition-continue ctx
              (ap (λ x. (transition x ctx).state) (sym (replaced ∙ same)) ∙ es)

    either :
        (t : Bool)
        → (t ≡ true → is_error status ≡ true)
        → IsSound call s (some (if t then (status, ctx) else (status, transition status ctx)))
    either true h = sound status ctx here (λ ne es. not_both (h refl) ne)
    either false h = sound status (transition status ctx) (transition-IsAcceptor status ctx) fine

verified-IsSound :
    (call : Call) (s : State) (ctx : Acceptor) (v : BidError × ℕ)
    → IsAcceptor ctx.state
    → (v.0 ≡ ok → Checked call s)
    → IsSound call s (conclude call s (some (verified_step call.host_spn_alias v ctx)))
verified-IsSound call s ctx (err, flags) here checked =
    conclude-IsSound call s r.0 r.1 (subst IsAcceptor (sym i.unmoved) here)
      (λ ne nc. by_status i.status ne nc)
  where
    r : Major × Acceptor
    r = verified_step call.host_spn_alias (err, flags) ctx

    i : IsVerified err ctx r
    i = verified_step-IsVerified call.host_spn_alias err flags ctx

    by_status :
        (r.0 ≡ continue_needed) ⊎ (r.0 ≡ map_error err)
        → is_error r.0 ≡ false
        → r.0 ≢ continue_needed
        → Checked call s
    by_status (inl c) ne nc = absurd (nc c)
    by_status (inr m) ne nc = elim (map_error_cases err) [
      | inl fine ↦ checked fine
      | inr fails ↦ not_both (ap is_error m ∙ fails) ne
    ]

state_step-IsSound :
    (call : Call) (ctx : Acceptor) (s : State)
    → ctx.state ≡ s
    → IsAcceptor s
    → is_established s ≡ false
    → IsSound call s (conclude call s (state_step call ctx s))
unfolding state_step
state_step-IsSound call ctx initial e a n =
    verified-IsSound call initial ctx (call.verify true) (subst IsAcceptor (sym e) a) (λ h. h)
state_step-IsSound call ctx retry_initial e a n =
    verified-IsSound call retry_initial ctx (call.verify false) (subst IsAcceptor (sym e) a)
      (λ h. h)
state_step-IsSound call ctx extra_round_trip e a n =
    conclude-IsSound call extra_round_trip (map_error call.verify_xrt) ctx
      (subst IsAcceptor (sym e) a)
      (λ ne nc. elim (map_error_cases call.verify_xrt) [
        | inl fine ↦ fine
        | inr fails ↦ not_both fails ne
      ])
state_step-IsSound call ctx established e a n = cc
state_step-IsSound call ctx authenticate e a n = absurd a
state_step-IsSound call ctx retry_authenticate e a n = absurd a

pub accept_step-IsSound :
    (call : Call) (ctx : Acceptor)
    → IsAcceptor ctx.state
    → IsSound call ctx.state (accept_step call ctx)
unfolding accept_step
accept_step-IsSound call ctx a =
    from (is_error call.cred) (is_established ctx.state) (is_error call.names) refl refl refl
  where
    from :
        (b₁ b₂ b₃ : Bool)
        → is_error call.cred ≡ b₁
        → is_established ctx.state ≡ b₂
        → is_error call.names ≡ b₃
        → IsSound call ctx.state (
            if b₁
            then some (call.cred, ctx)
            else if b₂
            then some (failure, ctx)
            else if b₃
            then some (call.names, ctx)
            else conclude call ctx.state (state_step call ctx ctx.state))
    from true b₂ b₃ e₁ e₂ e₃ = sound call.cred ctx a (λ ne es. not_both e₁ ne)
    from false true b₃ e₁ e₂ e₃ = sound failure ctx a (λ ne es. cc)
    from false false true e₁ e₂ e₃ = sound call.names ctx a (λ ne es. not_both e₃ ne)
    from false false false e₁ e₂ e₃ = state_step-IsSound call ctx ctx.state refl a e₂
