-- ===== src/Context.antt =====
-- The context of libbrowserid/bid_private.h, as far as the other modules read it, and the identity.
pub mod Model
use libbrowserid.Prelude.{ℕ, Bool, List, Option}
use libbrowserid.Json.{Jansson}

-- The bits of `ContextOptions`, BID_CONTEXT_RP and so on.
pub record Options : Type 0 where
  pub rp : Bool
  pub verify_remote : Bool
  pub authority_cache : Bool
  pub gss : Bool
  pub replay_cache : Bool
  pub reauth : Bool
  pub ecdh_keyex : Bool
  pub host_spn_alias : Bool

-- `BIDContextDesc`; no secondary authorities are a NULL pointer there. The caches are arguments of
-- the functions that use them.
pub record Context : Type 0 where
  pub options : Options
  pub secondary_authorities : List (List ℕ)
  pub max_delegations : ℕ
  pub skew : ℕ
  pub ecdh_curve : ℕ
  pub ticket_lifetime : ℕ
  pub renew_lifetime : ℕ

-- `BIDIdentityDesc`; the secret is a handle of the cryptographic library.
pub record Identity (J : Jansson) (secret : Type 0) : Type 0 where
  pub attributes : J.json
  pub private_attributes : J.json
  pub secret_handle : Option secret
