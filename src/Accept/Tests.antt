-- ===== src/Accept/Tests.antt =====
-- Runs of an acceptor: a recoverable error, an extra round trip, a flag that overrides an error.
use libbrowserid.Prelude.{ℕ, ◌≡◌, ◌⊎◌, refl, true, false, Option, none, some}
use libbrowserid.Status.{BidError, ok, expired_assertion, crypto_error}
use libbrowserid.Gss.{
  Major, defective_token, complete, continue_needed, credentials_expired, is_error,
}
use libbrowserid.Accept.{
  extra_round_trip, retry_initial, established, Acceptor, Call, new_acceptor,
  gss_accept_sec_context,
}
use libbrowserid.Accept.Steps.{Checked}
use libbrowserid.Accept.Established.{start, next, state_of, Reach-Checked}

abbrev finds : BidError → ℕ → Call
finds err flags = record {
  empty = false;
  token = complete;
  allocated = complete;
  cred = complete;
  names = complete;
  verify = λ reauth. (err, flags);
  verify_xrt = ok;
  host_spn_alias = true;
  ready = complete;
  response = complete;
  finish = complete;
}

established_first :
    gss_accept_sec_context (finds ok 0) none
    ≡ some (complete, some (record new_acceptor { state = established }))
unfolding gss_accept_sec_context
established_first = refl

recoverable :
    gss_accept_sec_context (finds expired_assertion 1) none
    ≡ some (continue_needed, some (record new_acceptor { state = retry_initial }))
unfolding gss_accept_sec_context
recoverable = refl

-- Without the flag of re-authentication the same error ends the establishment.
expired : gss_accept_sec_context (finds expired_assertion 0) none ≡ some (credentials_expired, none)
unfolding gss_accept_sec_context
expired = refl

-- The flag of the extra round trip overrides an error.
overridden :
    gss_accept_sec_context (finds crypto_error 1048576) none
    ≡ some (
      continue_needed,
      some (record new_acceptor { state = extra_round_trip; round_trip = true }),
    )
unfolding gss_accept_sec_context
overridden = refl

abbrev waiting : Acceptor
waiting = record new_acceptor { state = extra_round_trip; round_trip = true }

-- The assertion asks for the extra round trip.
asks : gss_accept_sec_context (finds ok 1048576) none ≡ some (continue_needed, some waiting)
unfolding gss_accept_sec_context
asks = refl

answered :
    gss_accept_sec_context (finds ok 0) (some waiting)
    ≡ some (complete, some (record waiting { state = established }))
unfolding gss_accept_sec_context
answered = refl

-- A call without a token leaves what is there.
without_token :
    gss_accept_sec_context
      (record (finds ok 0) { empty = true })
      (some (record waiting { state = established }))
    ≡ some (defective_token, some (record waiting { state = established }))
unfolding gss_accept_sec_context
without_token = refl

Reach-Checked_example :
    (major : Major) × (h' : Option Acceptor) × (gss_accept_sec_context (finds ok 0) (some waiting)
      ≡ some (major, h'))
    × ((ctx : Acceptor)
        → h' ≡ some ctx
        → ctx.state ≡ established
        → ((false ≡ true) × (major ≡ defective_token) × (some waiting ≡ some ctx))
          ⊎ ((false ≡ false)
              × (is_error major ≡ false)
              × Checked (finds ok 0) (state_of (some waiting))))
Reach-Checked_example =
    Reach-Checked (some waiting) (next (finds ok 1048576) continue_needed (some waiting) start asks)
      (finds ok 0)
