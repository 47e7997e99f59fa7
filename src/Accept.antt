-- ===== src/Accept.antt =====
-- mech_browserid/accept_sec_context.c: the acceptor's side of the establishment of a context, as a
-- state machine. What a call finds, the verification of the assertion among it, is its argument.
pub mod Steps
pub mod Established
mod Tests
use libbrowserid.Prelude.{ℕ, Bool, true, false, not, ◌&&◌, ◌||◌, Option, none, some, if◌then◌else◌}
use libbrowserid.Status.{
  BidError, ok, no_memory, bad_audience, missing_principal, unknown_principal_type,
  interact_unavailable, interact_failure, interact_required, invalid_json, invalid_base64,
  invalid_assertion, missing_algorithm, too_many_certs, untrusted_issuer, invalid_issuer,
  missing_issuer, missing_audience, expired_assertion, expired_cert, missing_channel_bindings,
  channel_bindings_mismatch, unknown_error_code, invalid_signature, unavailable, not_implemented,
}
use libbrowserid.Gss.{
  Major, complete, failure, defective_token, continue_needed, bad_name, cred_unavail,
  prompting_needed, credentials_expired, bad_bindings, bad_status, bad_sig, service_unavailable,
  is_error,
}
use libbrowserid.Json.Opts.{has_flag}

-- `gss_bid_state`; the two states of exchange are those of an initiator.
pub data State : Type 0 where
  initial authenticate retry_initial retry_authenticate extra_round_trip established : State

-- What the acceptor changes of `gss_ctx_id_struct`: CTX_FLAG_REAUTH and CTX_FLAG_EXTRA_ROUND_TRIP of
-- `flags`, and GSS_C_MUTUAL_FLAG, GSS_C_DCE_STYLE and GSS_C_IDENTIFY_FLAG of `gssFlags`.
pub record Acceptor : Type 0 where
  pub state : State
  pub reauth : Bool
  pub round_trip : Bool
  pub mutual_flag : Bool
  pub dce_style : Bool
  pub identify : Bool

-- What a call of `gss_accept_sec_context` finds: whether the input token is missing or of no length;
-- the status of `gssBidVerifyToken` with the test of
-- the token's type, of a new context, of the credential, of the assertion's text and the names; the
-- code and flags of `BIDVerifyAssertion` with BID_VERIFY_FLAG_REAUTH or not, and the code of
-- `BIDVerifyXRTToken`; BID_CONTEXT_HOST_SPN_ALIAS; the status of `gssBidContextReady`, of the response
-- token, and of what is done for the caller at the end.
pub record Call : Type 0 where
  pub empty : Bool
  pub token : Major
  pub allocated : Major
  pub cred : Major
  pub names : Major
  pub verify : Bool → BidError × ℕ
  pub verify_xrt : BidError
  pub host_spn_alias : Bool
  pub ready : Major
  pub response : Major
  pub finish : Major

-- `gssBidMapError`
pub map_error : BidError → Major
map_error ok = complete
map_error bad_audience = bad_name
map_error missing_principal = bad_name
map_error unknown_principal_type = bad_name
map_error interact_unavailable = cred_unavail
map_error interact_failure = cred_unavail
map_error interact_required = prompting_needed
map_error invalid_json = defective_token
map_error invalid_base64 = defective_token
map_error invalid_assertion = defective_token
map_error missing_algorithm = defective_token
map_error too_many_certs = defective_token
map_error untrusted_issuer = defective_token
map_error invalid_issuer = defective_token
map_error missing_issuer = defective_token
map_error missing_audience = defective_token
map_error expired_assertion = credentials_expired
map_error expired_cert = credentials_expired
map_error missing_channel_bindings = bad_bindings
map_error channel_bindings_mismatch = bad_bindings
map_error unknown_error_code = bad_status
map_error invalid_signature = bad_sig
map_error unavailable = service_unavailable
map_error not_implemented = service_unavailable
map_error _ = failure

-- The errors after which the initiator should send a new assertion.
abbrev is_recoverable : Bool → BidError → Bool
is_recoverable alias invalid_assertion = true
is_recoverable alias expired_assertion = true
is_recoverable alias bad_audience = not alias
is_recoverable alias _ = false

abbrev after_reauth : Bool → Bool → BidError → Acceptor → Major × Acceptor
after_reauth reauth alias err ctx =
    if reauth
    then (if is_recoverable alias err
        then (continue_needed, ctx)
        else (map_error err, record ctx { reauth = true }))
    else (map_error err, ctx)

abbrev after_round_trip : Bool → Major × Acceptor → Major × Acceptor
after_round_trip false (major, ctx) = (major, ctx)
after_round_trip true (major, ctx) = (continue_needed, record ctx { round_trip = true })

-- The flags that are copied into the context: those of a mutual ticket and of mutual
-- authentication, of DCE and of identification.
abbrev with_flags : ℕ → Major × Acceptor → Major × Acceptor
with_flags flags (major, ctx) = (
  major,
  record ctx {
    mutual_flag = ctx.mutual_flag || (has_flag flags 19 && has_flag flags 23);
    dce_style = ctx.dce_style || has_flag flags 21;
    identify = ctx.identify || has_flag flags 22;
  },
)

-- The case of the states INITIAL and RETRY_INITIAL, with the code and the flags.
pub verified_step : Bool → BidError × ℕ → Acceptor → Major × Acceptor
unfolding map_error
verified_step alias (err, flags) ctx =
    with_flags flags
      (after_round_trip (has_flag flags 20) (after_reauth (has_flag flags 0) alias err ctx))

-- The switch on the state; `none` is the assertion in its default case.
pub state_step : Call → Acceptor → State → Option (Major × Acceptor)
unfolding verified_step
state_step call ctx initial = some (verified_step call.host_spn_alias (call.verify true) ctx)
state_step call ctx retry_initial = some (verified_step call.host_spn_alias (call.verify false) ctx)
state_step call ctx extra_round_trip = some (map_error call.verify_xrt, ctx)
state_step call ctx _ = none

abbrev when_complete : Major → Major → Major
when_complete complete ready = ready
when_complete major ready = major

abbrev needs_response : State → Bool
needs_response extra_round_trip = false
needs_response _ = true

-- The transition at the end of `gssBidAcceptSecContext`.
abbrev transition : Major → Acceptor → Acceptor
transition continue_needed ctx = record ctx {
  state = if ctx.round_trip then extra_round_trip else retry_initial;
}
transition _ ctx = record ctx { state = established }

abbrev respond : Bool → Major → Major → Major
respond needed response major = if needed && is_error response then response else major

abbrev conclude : Call → State → Option (Major × Acceptor) → Option (Major × Acceptor)
conclude call state none = none
conclude call state (some (major, ctx)) =
    let status = respond (needs_response state) call.response (when_complete major call.ready) in
    some (
      if needs_response state && is_error status
      then (status, ctx)
      else (status, transition status ctx))

abbrev is_established : State → Bool
is_established established = true
is_established _ = false

-- `gssBidAcceptSecContext`
pub accept_step : Call → Acceptor → Option (Major × Acceptor)
unfolding state_step
accept_step call ctx =
    if is_error call.cred
    then some (call.cred, ctx)
    else if is_established ctx.state
    then some (failure, ctx)
    else if is_error call.names
    then some (call.names, ctx)
    else conclude call ctx.state (state_step call ctx ctx.state)

-- A context as `gssBidAllocContext` makes it.
abbrev pub new_acceptor : Acceptor
new_acceptor = record {
  state = initial;
  reauth = false;
  round_trip = false;
  mutual_flag = false;
  dce_style = false;
  identify = false;
}

-- The context that is left: none after an error.
abbrev left : Major → Acceptor → Major × Option Acceptor
left major ctx = (major, if is_error major then none else some ctx)

abbrev finished : Call → Option (Major × Acceptor) → Option (Major × Option Acceptor)
finished call none = none
finished call (some (major, ctx)) = some (
    left (if is_error major then major else if is_error call.finish then call.finish else major)
      ctx)

abbrev with_context : Call → Option Acceptor → Option (Major × Option Acceptor)
with_context call (some ctx) = finished call (accept_step call ctx)
with_context call none =
    if is_error call.allocated
    then some (call.allocated, none)
    else finished call (accept_step call new_acceptor)

-- `gss_accept_sec_context` once there is a token.
abbrev pub with_token : Call → Option Acceptor → Option (Major × Option Acceptor)
with_token call ctx = if is_error call.token then some (call.token, none) else with_context call ctx

-- `gss_accept_sec_context`, of a context or GSS_C_NO_CONTEXT, which releases the context with an error,
-- but not where there is no token.
pub gss_accept_sec_context : Call → Option Acceptor → Option (Major × Option Acceptor)
unfolding accept_step
gss_accept_sec_context call ctx =
    if call.empty then some (defective_token, ctx) else with_token call ctx
