-- ===== src/Context/Model.antt =====
-- A context for tests, of an acceptor.
use libbrowserid.Prelude.{ℕ, Bool, true, false, [], ◌∷◌}
use libbrowserid.Base64.{codes}
use libbrowserid.Context.{Context}

-- With BID_CONTEXT_REAUTH or not, a ticket's lifetime, and a number of delegations.
abbrev pub context : Bool → ℕ → ℕ → Context
context reauth lifetime delegations = record {
  options = record {
    rp = true;
    verify_remote = false;
    authority_cache = false;
    gss = true;
    replay_cache = true;
    reauth = reauth;
    ecdh_keyex = false;
    host_spn_alias = false;
  };
  secondary_authorities = codes "login.persona.org" ∷ [];
  max_delegations = delegations;
  skew = 300;
  ecdh_curve = 256;
  ticket_lifetime = lifetime;
  renew_lifetime = 0;
}
