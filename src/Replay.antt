-- ===== src/Replay.antt =====
-- libbrowserid/bid_rcache.c: the cache of the assertions that were accepted, which is also the
-- cache of the tickets for re-authentication.
pub mod Honest
pub mod Attributes
pub mod Recorded
pub mod Detected
mod Tests
use libbrowserid.Prelude.{
  ℕ, ◌+◌, Bool, true, false, not, ◌||◌, ◌&&◌, List, Option, none, some, ◌==◌, if◌then◌else◌,
}
use libbrowserid.Prelude.Int.{ℤ, pos, ltb_ℤ, ◌+ℤ◌}
use libbrowserid.Status.{Result, good, bad, BidError, ok, ◌>>=◌, replayed_assertion}
use libbrowserid.Base64.{codes}
use libbrowserid.Json.{
  Jansson, get, allocated, stored, put, json_object_set, get_json_timestamp_value,
  set_json_timestamp_value,
}
use libbrowserid.Json.Opts.{has_flag}
use libbrowserid.Verify.{exceeds, is_zero, is_ok}
use libbrowserid.Context.{Context, Identity}
use libbrowserid.Crypto.{
  Primitives, digest_assertion, derive_session_subkey, save_key_agreement_strength,
}
use libbrowserid.Cache.{Operations, get_cache_object, set_cache_object, purge_cache}

-- BID_VERIFY_FLAG_REAUTH
abbrev pub reauth_flag : ℕ
reauth_flag = 0

module _ (J : Jansson) where
  -- What `_BIDGetJsonTimestampValue` stores, when its status is not read.
  abbrev pub time_of : Option J.json → List ℕ → ℤ
  time_of json key = (get_json_timestamp_value J json key).1

  abbrev pub put_time : J.json → List ℕ → ℤ → Result J.json
  put_time json key ts = stored J (set_json_timestamp_value J json key ts)

  -- A time that is stored only if it is not zero.
  abbrev pub put_nonzero : J.json → List ℕ → ℤ → Result J.json
  put_nonzero json key ts = if is_zero ts then good json else put_time json key ts

  -- The flags of a ticket: BID_TICKET_FLAG_RENEWED and BID_TICKET_FLAG_MUTUAL_AUTH.
  abbrev ticket_flags : Bool → Bool → ℕ
  ticket_flags renewed mutual_auth = (if renewed then 1 else 0) + (if mutual_auth then 2 else 0)

  abbrev pub put_flags : J.json → ℕ → Result J.json
  put_flags json flags =
      if flags == 0
      then good json
      else put J json (codes "flags") (some (J.integer (pos flags))) true

  abbrev expiry_key : Option J.json → List ℕ
  expiry_key none = codes "a-exp"
  expiry_key (some ark) = codes "exp"

  -- `_BIDShouldPurgeReplayCacheEntryP`, of an entry with a key for re-authentication or without.
  unfoldable pub should_purge : ℤ → List ℕ → J.json → Bool
  should_purge now key j =
      let expiry = time_of (some j) (expiry_key (J.object_get j (codes "ark"))) in
      is_zero expiry || not (ltb_ℤ now expiry)

-- Whether a new ticket is issued: `bStoreReauthCreds`.
abbrev pub stores_creds : Context → ℤ → ℤ → ℕ → Bool
stores_creds context now renew_expiry flags =
    context.options.reauth
    && (not (has_flag flags reauth_flag) || not (exceeds now renew_expiry context.skew))

abbrev pub ticket_expiry : Context → ℤ → ℤ
ticket_expiry context now =
    if context.ticket_lifetime == 0 then pos 0 else now +ℤ pos context.ticket_lifetime

abbrev renewed_expiry : Context → ℤ → ℤ → ℕ → ℤ
renewed_expiry context now renew_expiry flags =
    if not (has_flag flags reauth_flag) && not (context.renew_lifetime == 0)
    then now +ℤ pos context.renew_lifetime
    else renew_expiry

module _ (J : Jansson) (P : Primitives J) where
  -- The object that is recorded for a ticket, from `_BIDDeriveSessionSubkey` on; the last argument
  -- is `_BIDCanMutualAuthP`.
  unfoldable pub ticket_record :
      Context
      → Identity J P.secret
      → J.json
      → ℤ
      → ℤ
      → ℕ
      → Bool
      → Result (J.json × Identity J P.secret)
  ticket_record context identity rdata now renew_expiry flags mutual_auth = do
    (ark, identity') ← derive_session_subkey J P context identity (codes "ARK")
    with_key ← put J rdata (codes "ark") (some ark) false
    with_flags ← put_flags J with_key (ticket_flags J (has_flag flags reauth_flag) mutual_auth)
    with_expiry ← put_nonzero J with_flags (codes "exp") (ticket_expiry context now)
    with_renewal ←
        put_nonzero J with_expiry (codes "renew-exp")
          (renewed_expiry context now renew_expiry flags)
    with_strength ←
        save_key_agreement_strength J context.options.ecdh_keyex identity.private_attributes
          with_renewal
    good (with_strength, identity')

  -- The object that is recorded for an assertion without a ticket.
  abbrev plain_record : Identity J P.secret → J.json → Result (J.json × Identity J P.secret)
  plain_record identity rdata = do
    with_expiry ← put J rdata (codes "exp") (J.object_get identity.attributes (codes "exp")) true
    good (with_expiry, identity)

  -- The object that `_BIDUpdateReplayCache` records; a ticket has a copy of the attributes.
  unfoldable pub replay_record :
      Context → Identity J P.secret → ℤ → ℕ → Bool → Result (J.json × Identity J P.secret)
  unfolding ticket_record
  replay_record context identity now flags mutual_auth =
      let renew_expiry = time_of J (some identity.private_attributes) (codes "renew-exp") in
      let creds = stores_creds context now renew_expiry flags in
      do
        rdata ← allocated J (if creds then J.copy identity.attributes else J.object)
        with_issue ← put_time J rdata (codes "iat") now
        dated ←
            put J with_issue (codes "a-exp")
              (J.object_get identity.private_attributes (codes "a-exp")) false
        if creds
            then ticket_record context identity dated now renew_expiry flags mutual_auth
            else plain_record identity dated

  -- The ticket that the identity gets: its digest and its expiry.
  abbrev with_ticket : Identity J P.secret → J.json → J.json → Result (Identity J P.secret)
  with_ticket identity digest rdata = do
    tkt ← allocated J J.object
    named ← put J tkt (codes "tid") (some digest) true
    dated ← put J named (codes "exp") (J.object_get rdata (codes "exp")) false
    private ← put J identity.private_attributes (codes "tkt") (some dated) false
    good (record identity { private_attributes = private })

module _ (J : Jansson) (P : Primitives J) (S : Type 0) (ops : Operations J S) where
  abbrev issued :
      Option S
      → Identity J P.secret
      → Result (Identity J P.secret)
      → BidError × Option S × Identity J P.secret
  issued cache identity (bad e) = (e, cache, identity)
  issued cache identity (good identity') = (ok, cache, identity')

  abbrev recorded :
      Bool
      → J.json
      → J.json
      → Identity J P.secret
      → BidError × Option S
      → BidError × Option S × Identity J P.secret
  recorded creds digest rdata identity (err, cache) =
      if is_ok err
      then (if creds
          then issued cache identity (with_ticket J P identity digest rdata)
          else (ok, cache, identity))
      else (err, cache, identity)

  abbrev record_entry :
      Bool
      → Option S
      → Identity J P.secret
      → J.json
      → Result (J.json × Identity J P.secret)
      → BidError × Option S × Identity J P.secret
  record_entry creds cache identity digest (bad e) = (e, cache, identity)
  record_entry creds cache identity digest (good (rdata, identity')) =
      recorded creds digest rdata identity'
        (set_cache_object J S ops cache (J.string_value digest) (some rdata))

  abbrev digested :
      Bool
      → Option S
      → Identity J P.secret
      → Result (J.json × Identity J P.secret)
      → Result J.json
      → BidError × Option S × Identity J P.secret
  digested creds cache identity entry (bad e) = (e, cache, identity)
  digested creds cache identity entry (good digest) = record_entry creds cache identity digest entry

  -- `_BIDUpdateReplayCache`, with the cache that is used, the flags and `_BIDCanMutualAuthP`: the
  -- status, the cache and the identity.
  unfoldable pub update_replay_cache :
      Context
      → Option S
      → Identity J P.secret
      → List ℕ
      → ℤ
      → ℕ
      → Bool
      → BidError × Option S × Identity J P.secret
  unfolding replay_record
  update_replay_cache context cache identity assertion now flags mutual_auth =
      let renew_expiry = time_of J (some identity.private_attributes) (codes "renew-exp") in
      digested (stores_creds context now renew_expiry flags) cache identity
        (replay_record J P context identity now flags mutual_auth) (digest_assertion J P assertion)

  abbrev status_of_entry : ℤ → Result J.json → BidError
  status_of_entry now (bad e) = ok
  status_of_entry now (good rdata) =
      if ltb_ℤ now (time_of J (some rdata) (codes "exp")) then replayed_assertion else ok

  abbrev check_digest : Option S → ℤ → Result J.json → BidError
  check_digest cache now (bad e) = e
  check_digest cache now (good digest) =
      status_of_entry now (get_cache_object J S ops cache (J.string_value digest))

  -- `_BIDCheckReplayCache`, with the cache that is used.
  unfoldable pub check_replay_cache : Option S → List ℕ → ℤ → BidError
  check_replay_cache cache assertion now = check_digest cache now (digest_assertion J P assertion)

  -- `_BIDPurgeReplayCache`
  pub purge_replay_cache : ℕ → S → ℤ → Option (BidError × S)
  unfolding should_purge
  purge_replay_cache n cache now = purge_cache J S ops n (should_purge J now) cache
