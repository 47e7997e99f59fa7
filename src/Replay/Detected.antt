-- ===== src/Replay/Detected.antt =====
-- An assertion that was recorded is reported as replayed.
use libbrowserid.Prelude.{
  ℕ, ◌≡◌, refl, sym, ap, ◌∙◌, Bool, true, false, List, Option, none, some, if◌then◌else◌,
}
use libbrowserid.Prelude.Int.{ℤ, ltb_ℤ, thousand_times}
use libbrowserid.Status.{Result, good, bad, BidError, ok, invalid_parameter, replayed_assertion}
use libbrowserid.Base64.{codes}
use libbrowserid.Json.{Jansson, IsJansson, IsInt64}
use libbrowserid.Context.{Context, Identity}
use libbrowserid.Crypto.{Primitives, digest_assertion}
use libbrowserid.Cache.{Operations, IsCache, get_cache_object, set_cache_object}
use libbrowserid.Replay.{
  time_of, stores_creds, ticket_expiry, replay_record, digested, record_entry, recorded, issued,
  with_ticket, check_digest, status_of_entry, update_replay_cache, check_replay_cache,
}
use libbrowserid.Crypto.Honest.{Honest, AreHonest, digest_assertion-Honest}
use libbrowserid.Replay.Honest.{record-Honest}
use libbrowserid.Replay.Recorded.{recorded_expiry, replay_record-expiry}

module _ (J : Jansson) (L : IsJansson J) (P : Primitives J) (S : Type 0) (ops : Operations J S)
    (C : IsCache J S ops) where
  -- An update that succeeds has set the object in the cache.
  recorded-set :
      (creds : Bool) (digest rdata : J.json) (identity : Identity J P.secret)
      (r : BidError × Option S)
      → (recorded J P S ops creds digest rdata identity r).0 ≡ ok
      → (r.0 ≡ ok) × ((recorded J P S ops creds digest rdata identity r).1 ≡ r.1)
  recorded-set true digest rdata identity (ok, c) h =
      (refl, cache_of (with_ticket J P identity digest rdata))
    where
      cache_of : (t : Result (Identity J P.secret)) → (issued J P S ops c identity t).1 ≡ c
      cache_of (good i) = refl
      cache_of (bad e) = refl
  recorded-set false digest rdata identity (ok, c) h = (refl, refl)
  recorded-set creds digest rdata identity (e, c) h = absurd cc

  -- What is set under a key that is there is found under it.
  found-set :
      (cache cache' : Option S) (key : Option (List ℕ)) (v : J.json)
      → set_cache_object J S ops cache key (some v) ≡ (ok, cache')
      → get_cache_object J S ops cache' key ≡ good v
  unfolding set_cache_object
  found-set none cache' key v h = absurd (let c : invalid_parameter ≡ ok = ap (λ p. p.0) h in cc)
  found-set (some s) cache' none v h =
      absurd (let c : invalid_parameter ≡ ok = ap (λ p. p.0) h in cc)
  found-set (some s) cache' (some key) v h = C.get-set s cache' key v h

  -- With the digest and the record of the assertion, an update and then a check.
  check-update_recorded :
      (context : Context) (cache : Option S) (identity identity' : Identity J P.secret)
      (digest rdata : J.json) (assertion : List ℕ) (now later : ℤ) (flags : ℕ) (mutual_auth : Bool)
      → IsInt64 (thousand_times (ticket_expiry context now))
      → digest_assertion J P assertion ≡ good digest
      → replay_record J P context identity now flags mutual_auth ≡ good (rdata, identity')
      → (update_replay_cache J P S ops context cache identity assertion now flags mutual_auth).0
        ≡ ok
      → check_replay_cache J P S ops
          (update_replay_cache J P S ops context cache identity assertion now flags mutual_auth).1
          assertion
          later
        ≡ (if ltb_ℤ later (recorded_expiry J L P context identity now flags)
            then replayed_assertion
            else ok)
  unfolding update_replay_cache check_replay_cache
  check-update_recorded context cache identity identity' digest rdata assertion now later flags
        mutual_auth fits d r h =
      let creds =
        stores_creds context now (time_of J (some identity.private_attributes) (codes "renew-exp"))
          flags in
      let set = set_cache_object J S ops cache (J.string_value digest) (some rdata) in
      let whole : update_replay_cache J P S ops context cache identity assertion now flags
            mutual_auth
          ≡ recorded J P S ops creds digest rdata identity' set =
        ap
          (digested J P S ops creds cache identity
            (replay_record J P context identity now flags mutual_auth))
          d
        ∙ ap (record_entry J P S ops creds cache identity digest) r in
      let (fine, kept) =
        recorded-set creds digest rdata identity' set (sym (ap (λ p. p.0) whole) ∙ h) in
      let found = found-set cache set.1 (J.string_value digest) rdata (ap (λ e. (e, set.1)) fine) in
      ap (λ c. check_replay_cache J P S ops c assertion later) (ap (λ p. p.1) whole ∙ kept)
      ∙ (ap (check_digest J P S ops set.1 later) d
          ∙ (ap (status_of_entry J P S ops later) found
              ∙ ap (λ t. if ltb_ℤ later t then replayed_assertion else ok)
                  (replay_record-expiry J L P context identity identity' rdata now flags mutual_auth
                    fits r)))

  -- If `_BIDUpdateReplayCache` returns BID_S_OK for an assertion, then `_BIDCheckReplayCache` finds it
  -- in the cache that is left, and reports it as replayed at every time before the recorded expiry
  -- and at no other. That is the expiry of the ticket, if one is issued with a lifetime, and else
  -- the one in the attributes. The lifetime fits 64 bits, what a cache is given under a key is found
  -- under it, and the cryptographic primitives do not fail with BID_S_OK.
  pub check-update_replay_cache :
      (honest : AreHonest J P) (context : Context) (cache : Option S)
      (identity : Identity J P.secret) (assertion : List ℕ) (now later : ℤ) (flags : ℕ)
      (mutual_auth : Bool)
      → IsInt64 (thousand_times (ticket_expiry context now))
      → (update_replay_cache J P S ops context cache identity assertion now flags mutual_auth).0
        ≡ ok
      → check_replay_cache J P S ops
          (update_replay_cache J P S ops context cache identity assertion now flags mutual_auth).1
          assertion
          later
        ≡ (if ltb_ℤ later (recorded_expiry J L P context identity now flags)
            then replayed_assertion
            else ok)
  unfolding update_replay_cache
  check-update_replay_cache honest context cache identity assertion now later flags mutual_auth fits
        h =
      from (digest_assertion J P assertion)
        (replay_record J P context identity now flags mutual_auth) refl refl
        (digest_assertion-Honest J P honest assertion)
        (record-Honest J P honest context identity now flags mutual_auth) h
    where
      from :
          (q : Result J.json) (r : Result (J.json × Identity J P.secret))
          → digest_assertion J P assertion ≡ q
          → replay_record J P context identity now flags mutual_auth ≡ r
          → Honest q
          → Honest r
          → (digested J P S ops
              (stores_creds context now
                (time_of J (some identity.private_attributes) (codes "renew-exp"))
                flags)
              cache
              identity
              r
              q).0
            ≡ ok
          → check_replay_cache J P S ops
              (update_replay_cache J P S ops context cache identity assertion now flags
                mutual_auth).1
              assertion
              later
            ≡ (if ltb_ℤ later (recorded_expiry J L P context identity now flags)
                then replayed_assertion
                else ok)
      from (good d) (good (o, i)) e f hq hr k =
          check-update_recorded context cache identity i d o assertion now later flags mutual_auth
            fits e f h
      from (good d) (bad x) e f hq hr k = absurd (hr k)
      from (bad x) r e f hq hr k = absurd (hq k)
