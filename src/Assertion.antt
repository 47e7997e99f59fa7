-- ===== src/Assertion.antt =====
-- libbrowserid/bid_identity.c: `BIDVerifyAssertion`, which verifies an assertion, looks for it in the
-- replay cache, and records it there. The remote verification (bid_rverify.c) is a parameter.
pub mod Fresh
mod Tests
use libbrowserid.Prelude.{
  ℕ, Bool, true, false, not, ◌&&◌, ◌||◌, List, [], Option, none, some, if◌then◌else◌,
}
use libbrowserid.Prelude.Int.{ℤ}
use libbrowserid.Status.{Result, good, bad, BidError, ok, invalid_parameter, invalid_usage}
use libbrowserid.Base64.{codes}
use libbrowserid.Json.{Jansson}
use libbrowserid.Json.Opts.{has_flag}
use libbrowserid.Jwt.{JsonText, Parsed, parsed, rejected, undefined}
use libbrowserid.Backed.{BackedAssertion, unpack_backed_assertion}
use libbrowserid.Verify.{is_ok}
use libbrowserid.Context.{Context, Identity}
use libbrowserid.Crypto.{Primitives, verifier_key_agreement}
use libbrowserid.Cache.{Operations}
use libbrowserid.Replay.{time_of, reauth_flag, check_replay_cache, update_replay_cache}

-- BID_VERIFY_FLAG_EXTRA_ROUND_TRIP
abbrev pub xrt_flag : ℕ
xrt_flag = 20

-- A verified assertion: the identity, its expiry and the flags.
pub record Verified (J : Jansson) (secret : Type 0) : Type 0 where
  pub identity : Identity J secret
  pub expiry : ℤ
  pub flags : ℕ

module _ (J : Jansson) (T : JsonText J) (P : Primitives J)
    -- The replay cache, and the state that the verification changes, as the authority cache.
    (R : Type 0) (ops : Operations J R) (S : Type 0)
    -- `_BIDVerifyRemote` or `_BIDVerifyLocal` at a time, by BID_CONTEXT_VERIFY_REMOTE: the identity and
    -- the flags; `none` is a read outside a string, or the end of the fuel.
    (verify : Bool
      → ℤ
      → BackedAssertion J
      → S
      → Option (Result (Identity J P.secret × ℕ)) × S) where
  -- The outcome, and the replay cache that is left.
  abbrev Outcome : Type 0
  Outcome = Option (Result (Verified J P.secret)) × Option R

  abbrev finish : ℕ → BidError × Option R × Identity J P.secret → Outcome
  finish flags (err, cache, identity) =
      if is_ok err
      then (
        some (
            good (record {
              identity = identity;
              expiry = time_of J (some identity.attributes) (codes "exp");
              flags = flags;
            })),
        cache,
      )
      else (some (bad err), cache)

  -- `bUseReplayCache`
  abbrev uses_replay : Context → ℕ → Bool
  uses_replay context flags = not (has_flag flags xrt_flag) && context.options.replay_cache

  -- The end of `BIDVerifyAssertion` from the replay cache's update on; the flags are those of the
  -- verification, `no_cache` is BID_VERIFY_FLAG_NO_REPLAY_CACHE, and `mutual_auth` is
  -- `_BIDCanMutualAuthP`.
  abbrev update_step :
      Context → Option R → List ℕ → ℤ → Bool → Bool → ℕ → Identity J P.secret → Outcome
  update_step context cache assertion now no_cache mutual_auth flags identity = finish flags (
      if (uses_replay context flags || context.options.reauth) && not no_cache
      then update_replay_cache J P R ops context cache identity assertion now flags mutual_auth
      else (ok, cache, identity))

  abbrev agreed_step :
      Context → Option R → List ℕ → ℤ → Bool → Bool → ℕ → Result (Identity J P.secret) → Outcome
  agreed_step context cache assertion now no_cache mutual_auth flags (bad e) = (some (bad e), cache)
  agreed_step context cache assertion now no_cache mutual_auth flags (good identity) =
      update_step context cache assertion now no_cache mutual_auth flags identity

  abbrev agreement : Context → ℕ → Identity J P.secret → Result (Identity J P.secret)
  agreement context flags identity =
      if not (has_flag flags reauth_flag) && context.options.ecdh_keyex
      then verifier_key_agreement J P identity
      else good identity

  abbrev replay_status : Context → Option R → List ℕ → ℤ → Bool → ℕ → BidError
  replay_status context cache assertion now no_cache flags =
      if uses_replay context flags && not no_cache
      then check_replay_cache J P R ops cache assertion now
      else ok

  -- What follows the verification.
  unfoldable pub after_verify :
      Context
      → Option R
      → List ℕ
      → ℤ
      → Bool
      → Bool
      → Option (Result (Identity J P.secret × ℕ))
      → Outcome
  after_verify context cache assertion now no_cache mutual_auth none = (none, cache)
  after_verify context cache assertion now no_cache mutual_auth (some (bad e)) =
      (some (bad e), cache)
  after_verify context cache assertion now no_cache mutual_auth (some (good (identity, flags))) =
      let err = replay_status context cache assertion now no_cache flags in
      if is_ok err
      then agreed_step context cache assertion now no_cache mutual_auth flags
          (agreement context flags identity)
      else (some (bad err), cache)

  abbrev keep_state : S → Outcome → Outcome × S
  keep_state state outcome = (outcome, state)

  abbrev verified :
      Context
      → Option R
      → List ℕ
      → ℤ
      → Bool
      → Bool
      → Option (Result (Identity J P.secret × ℕ)) × S
      → Outcome × S
  verified context cache assertion now no_cache mutual_auth (r, state) =
      keep_state state (after_verify context cache assertion now no_cache mutual_auth r)

  abbrev unpacked :
      Context → Option R → S → List ℕ → ℤ → Bool → Bool → Parsed (BackedAssertion J) → Outcome × S
  unpacked context cache state assertion now no_cache mutual_auth undefined =
      keep_state state (none, cache)
  unpacked context cache state assertion now no_cache mutual_auth (rejected e) =
      keep_state state (some (bad e), cache)
  unpacked context cache state assertion now no_cache mutual_auth (parsed backed) =
      verified context cache assertion now no_cache mutual_auth
        (verify context.options.verify_remote now backed state)

  -- `BIDVerifyAssertion`, with the replay cache that is used.
  unfoldable pub verify_assertion :
      Context → Option R → S → Option (List ℕ) → ℤ → Bool → Bool → Outcome × S
  unfolding after_verify
  verify_assertion context cache state none now no_cache mutual_auth =
      keep_state state (some (bad invalid_parameter), cache)
  verify_assertion context cache state (some assertion) now no_cache mutual_auth =
      if context.options.rp
      then unpacked context cache state assertion now no_cache mutual_auth
          (unpack_backed_assertion J T (some assertion))
      else keep_state state (some (bad invalid_usage), cache)
