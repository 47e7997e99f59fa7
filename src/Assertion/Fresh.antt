-- ===== src/Assertion/Fresh.antt =====
-- An assertion that was accepted is not accepted again before it expires.
use libbrowserid.Prelude.{
  ℕ, ◌≡◌, ◌⊎◌, inl, inr, refl, sym, ap, ◌∙◌, Bool, true, false, not, ◌&&◌, ◌||◌, List, Option, none,
  some, Bool-cases, if◌then◌else◌,
}
use libbrowserid.Prelude.Int.{ℤ, ltb_ℤ, thousand_times}
use libbrowserid.Status.{Result, good, bad, BidError, ok, replayed_assertion, invalid_usage}
use libbrowserid.Base64.{codes}
use libbrowserid.Json.{Jansson, IsJansson, IsInt64}
use libbrowserid.Json.Opts.{has_flag}
use libbrowserid.Jwt.{JsonText, Parsed, parsed, rejected, undefined}
use libbrowserid.Backed.{BackedAssertion, unpack_backed_assertion}
use libbrowserid.Verify.{is_ok, is_zero}
use libbrowserid.Context.{Context, Identity}
use libbrowserid.Crypto.{Primitives}
use libbrowserid.Crypto.Honest.{AreHonest}
use libbrowserid.Cache.{Operations, IsCache}
use libbrowserid.Replay.{
  time_of, ticket_expiry, stores_creds, check_replay_cache, update_replay_cache,
}
use libbrowserid.Replay.Recorded.{recorded_expiry}
use libbrowserid.Replay.Attributes.{update-attributes}
use libbrowserid.Replay.Detected.{check-update_replay_cache}
use libbrowserid.Local.Steps.{some_good}
use libbrowserid.Assertion.{
  Verified, xrt_flag, finish, uses_replay, update_step, agreed_step, agreement, replay_status,
  after_verify, unpacked, verify_assertion,
}

module _ (J : Jansson) (T : JsonText J) (P : Primitives J) (R : Type 0) (ops : Operations J R)
    (S : Type 0)
    (verify : Bool
      → ℤ
      → BackedAssertion J
      → S
      → Option (Result (Identity J P.secret × ℕ)) × S) where
  -- The parts of a verification that accepts.
  record HasAccepted (context : Context) (cache : Option R) (assertion : List ℕ) (now : ℤ)
      (mutual_auth : Bool) (out : Option (Result (Verified J P.secret)) × Option R)
      (v : Verified J P.secret) : Type 0 where
    identity : Identity J P.secret
    flags : ℕ
    fresh : replay_status J T P R ops S verify context cache assertion now false flags ≡ ok
    finished :
        out
        ≡ update_step J T P R ops S verify context cache assertion now false mutual_auth flags
            identity
    accepted :
        (update_step J T P R ops S verify context cache assertion now false mutual_auth flags
          identity).0
        ≡ some (good v)

  after_verify-HasAccepted :
      (context : Context) (cache : Option R) (assertion : List ℕ) (now : ℤ) (mutual_auth : Bool)
      (r : Option (Result (Identity J P.secret × ℕ))) (v : Verified J P.secret)
      → (after_verify J T P R ops S verify context cache assertion now false mutual_auth r).0
        ≡ some (good v)
      → HasAccepted context cache assertion now mutual_auth
          (after_verify J T P R ops S verify context cache assertion now false mutual_auth r)
          v
  unfolding after_verify
  after_verify-HasAccepted context cache assertion now mutual_auth none v h = absurd cc
  after_verify-HasAccepted context cache assertion now mutual_auth (some (bad e)) v h = absurd cc
  after_verify-HasAccepted context cache assertion now mutual_auth (some (good (i, flags))) v h =
      by_status (replay_status J T P R ops S verify context cache assertion now false flags) refl h
    where
      by_agreement :
          (a : Result (Identity J P.secret))
          → replay_status J T P R ops S verify context cache assertion now false flags ≡ ok
          → (agreed_step J T P R ops S verify context cache assertion now false mutual_auth flags
              a).0
            ≡ some (good v)
          → HasAccepted context cache assertion now mutual_auth
              (agreed_step J T P R ops S verify context cache assertion now false mutual_auth flags
                a)
              v
      by_agreement (bad e) f h = absurd cc
      by_agreement (good i') f h = record {
        identity = i';
        flags = flags;
        fresh = f;
        finished = refl;
        accepted = h;
      }

      by_status :
          (e : BidError)
          → replay_status J T P R ops S verify context cache assertion now false flags ≡ e
          → (if is_ok e
              then agreed_step J T P R ops S verify context cache assertion now false mutual_auth
                  flags
                  (agreement J T P R ops S verify context flags i)
              else (some (bad e), cache)).0
            ≡ some (good v)
          → HasAccepted context cache assertion now mutual_auth
              (if is_ok e
                then agreed_step J T P R ops S verify context cache assertion now false mutual_auth
                    flags
                    (agreement J T P R ops S verify context flags i)
                else (some (bad e), cache))
              v
      by_status ok f h = by_agreement _ f h
      by_status e f h = absurd cc

  verify_assertion-HasAccepted :
      (context : Context) (cache : Option R) (state : S) (assertion : List ℕ) (now : ℤ)
      (mutual_auth : Bool) (v : Verified J P.secret)
      → (verify_assertion J T P R ops S verify context cache state
          (some assertion)
          now
          false
          mutual_auth).0.0
        ≡ some (good v)
      → HasAccepted context cache assertion now mutual_auth
          (verify_assertion J T P R ops S verify context cache state
            (some assertion)
            now
            false
            mutual_auth).0
          v
  unfolding verify_assertion
  verify_assertion-HasAccepted context cache state assertion now mutual_auth v h =
      from context.options.rp (unpack_backed_assertion J T (some assertion)) h
    where
      from :
          (b : Bool) (u : Parsed (BackedAssertion J))
          → (if b
              then unpacked J T P R ops S verify context cache state assertion now false mutual_auth
                  u
              else ((some (bad invalid_usage), cache), state)).0.0
            ≡ some (good v)
          → HasAccepted context cache assertion now mutual_auth
              (if b
                then unpacked J T P R ops S verify context cache state assertion now false
                    mutual_auth u
                else ((some (bad invalid_usage), cache), state)).0
              v
      from true (parsed backed) h =
          after_verify-HasAccepted context cache assertion now mutual_auth
            (verify context.options.verify_remote now backed state).0 v h
      from true (rejected e) h = absurd cc
      from true undefined h = absurd cc
      from false u h = absurd cc

  -- The end of a verification that accepts, when the replay cache is in use.
  record IsRecorded (context : Context) (cache : Option R) (assertion : List ℕ) (now : ℤ)
      (mutual_auth : Bool) (flags : ℕ) (identity : Identity J P.secret) (v : Verified J P.secret)
      (left : Option R) : Type 0 where
    updated :
        (update_replay_cache J P R ops context cache identity assertion now flags mutual_auth).0
        ≡ ok
    cache_left :
        left
        ≡ (update_replay_cache J P R ops context cache identity assertion now flags mutual_auth).1
    expires :
        v.expiry
        ≡ time_of J
            (some
              (update_replay_cache J P R ops context cache identity assertion now flags
                mutual_auth).2.attributes)
            (codes "exp")
    same_flags : v.flags ≡ flags

  finish-good :
      (flags : ℕ) (u : BidError × Option R × Identity J P.secret) (v : Verified J P.secret)
      → (finish J T P R ops S verify flags u).0 ≡ some (good v)
      → (u.0 ≡ ok)
        × ((finish J T P R ops S verify flags u).1 ≡ u.1)
        × (v.expiry ≡ time_of J (some u.2.attributes) (codes "exp"))
        × (v.flags ≡ flags)
  finish-good flags (ok, c, i) v h =
      (refl, refl, sym (ap (λ x. x.expiry) (some_good h)), sym (ap (λ x. x.flags) (some_good h)))
  finish-good flags (e, c, i) v h = absurd cc

  update_step-IsRecorded :
      (context : Context) (cache : Option R) (assertion : List ℕ) (now : ℤ) (mutual_auth : Bool)
      (flags : ℕ) (identity : Identity J P.secret) (v : Verified J P.secret)
      → uses_replay J T P R ops S verify context flags ≡ true
      → (update_step J T P R ops S verify context cache assertion now false mutual_auth flags
          identity).0
        ≡ some (good v)
      → IsRecorded context cache assertion now mutual_auth flags identity v
          (update_step J T P R ops S verify context cache assertion now false mutual_auth flags
            identity).1
  update_step-IsRecorded context cache assertion now mutual_auth flags identity v uses h =
      let upd =
        update_replay_cache J P R ops context cache identity assertion now flags mutual_auth in
      let whole : update_step J T P R ops S verify context cache assertion now false mutual_auth
            flags identity
          ≡ finish J T P R ops S verify flags upd =
        ap
          (λ b.
            finish J T P R ops S verify flags
              (if (b || context.options.reauth) && true then upd else (ok, cache, identity)))
          uses in
      let (fine, left, expires, same) = finish-good flags upd v (sym (ap (λ o. o.0) whole) ∙ h) in
      record {
        updated = fine;
        cache_left = ap (λ o. o.1) whole ∙ left;
        expires = expires;
        same_flags = same;
      }

  accepted-flags :
      (context : Context) (cache : Option R) (assertion : List ℕ) (now : ℤ) (mutual_auth : Bool)
      (out : Option (Result (Verified J P.secret)) × Option R) (v : Verified J P.secret)
      (a : HasAccepted context cache assertion now mutual_auth out v)
      → v.flags ≡ a.flags
  accepted-flags context cache assertion now mutual_auth out v a =
      (finish-good a.flags
        (if (uses_replay J T P R ops S verify context a.flags || context.options.reauth) && true
          then update_replay_cache J P R ops context cache a.identity assertion now a.flags
              mutual_auth
          else (ok, cache, a.identity))
        v a.accepted).3

  uses-flag :
      (context : Context) (flags : ℕ)
      → context.options.replay_cache ≡ true
      → has_flag flags xrt_flag ≡ false
      → uses_replay J T P R ops S verify context flags ≡ true
  uses-flag context flags on none' = ap (λ b. not b && context.options.replay_cache) none' ∙ on

  -- Before the expiry of the attributes and of the ticket, it is before the one that is recorded.
  before-recorded :
      (b z : Bool) (ticket attribute later : ℤ)
      → ltb_ℤ later attribute ≡ true
      → (z ≡ true) ⊎ (ltb_ℤ later ticket ≡ true)
      → ltb_ℤ later (if b && not z then ticket else attribute) ≡ true
  before-recorded false z ticket attribute later h t = h
  before-recorded true true ticket attribute later h t = h
  before-recorded true false ticket attribute later h (inl c) = absurd cc
  before-recorded true false ticket attribute later h (inr t) = t

  -- The assertion that a verification with the replay cache has accepted is replayed, in the cache
  -- that is left.
  accepted-replayed :
      (L : IsJansson J) (C : IsCache J R ops) (honest : AreHonest J P) (context : Context)
      (cache : Option R) (assertion : List ℕ) (now later : ℤ) (mutual_auth : Bool)
      (out : Option (Result (Verified J P.secret)) × Option R) (v : Verified J P.secret)
      → HasAccepted context cache assertion now mutual_auth out v
      → context.options.replay_cache ≡ true
      → IsInt64 (thousand_times (ticket_expiry context now))
      → has_flag v.flags xrt_flag ≡ false
      → ltb_ℤ later v.expiry ≡ true
      → (is_zero (ticket_expiry context now) ≡ true)
        ⊎ (ltb_ℤ later (ticket_expiry context now) ≡ true)
      → check_replay_cache J P R ops out.1 assertion later ≡ replayed_assertion
  accepted-replayed L C honest context cache assertion now later mutual_auth out v a on fits none'
        before ticket =
      let flags = accepted-flags context cache assertion now mutual_auth out v a in
      let uses = uses-flag context a.flags on (sym (ap (λ f. has_flag f xrt_flag) flags) ∙ none') in
      let r =
        update_step-IsRecorded context cache assertion now mutual_auth a.flags a.identity v uses
          a.accepted in
      let expiry =
        r.expires
        ∙ ap (λ j. time_of J (some j) (codes "exp"))
            (update-attributes J P R ops context a.identity cache assertion now a.flags
              mutual_auth) in
      let recorded : ltb_ℤ later (recorded_expiry J L P context a.identity now a.flags) ≡ true =
        before-recorded
          (stores_creds context now
            (time_of J (some a.identity.private_attributes) (codes "renew-exp")) a.flags)
          (is_zero (ticket_expiry context now)) (ticket_expiry context now) _ later
          (sym (ap (ltb_ℤ later) expiry) ∙ before) ticket in
      ap (λ c. check_replay_cache J P R ops c assertion later)
        (ap (λ o. o.1) a.finished ∙ r.cache_left)
      ∙ (check-update_replay_cache J L P R ops C honest context cache a.identity assertion now later
            a.flags mutual_auth fits r.updated
          ∙ ap (λ b. if b then replayed_assertion else ok) recorded)

  -- With the replay cache, `BIDVerifyAssertion` accepts an assertion at most once: after it has
  -- accepted one that does not ask for the extra round trip, it accepts the same text in the cache
  -- that is left only if that text then asks for the extra round trip, whatever the verification
  -- says, at every time before the expiry that it returned and before that of the ticket that was
  -- issued, if one was issued with a lifetime. The lifetime fits 64 bits, the cache finds what it is
  -- given, and the cryptographic primitives do not fail with BID_S_OK.
  pub verify_assertion_once :
      (L : IsJansson J) (C : IsCache J R ops) (honest : AreHonest J P) (context : Context)
      (cache : Option R) (state state' : S) (assertion : List ℕ) (now later : ℤ)
      (mutual_auth mutual_auth' : Bool) (v v' : Verified J P.secret)
      → context.options.replay_cache ≡ true
      → IsInt64 (thousand_times (ticket_expiry context now))
      → (verify_assertion J T P R ops S verify context cache state
          (some assertion)
          now
          false
          mutual_auth).0.0
        ≡ some (good v)
      → has_flag v.flags xrt_flag ≡ false
      → ltb_ℤ later v.expiry ≡ true
      → (is_zero (ticket_expiry context now) ≡ true)
        ⊎ (ltb_ℤ later (ticket_expiry context now) ≡ true)
      → (verify_assertion J T P R ops S verify context
          (verify_assertion J T P R ops S verify context cache state
            (some assertion)
            now
            false
            mutual_auth).0.1
          state'
          (some assertion)
          later
          false
          mutual_auth').0.0
        ≡ some (good v')
      → has_flag v'.flags xrt_flag ≡ true
  verify_assertion_once L C honest context cache state state' assertion now later mutual_auth
        mutual_auth' v v' on fits h none' before ticket h' =
      let first = verify_assertion-HasAccepted context cache state assertion now mutual_auth v h in
      let replayed =
        accepted-replayed L C honest context cache assertion now later mutual_auth _ v first on fits
          none' before ticket in
      let second =
        verify_assertion-HasAccepted context _ state' assertion later mutual_auth' v' h' in
      let flags = accepted-flags context _ assertion later mutual_auth' _ v' second in
      elim (Bool-cases (has_flag second.flags xrt_flag)) [
        | inl xrt ↦ ap (λ f. has_flag f xrt_flag) flags ∙ xrt
        | inr plain ↦
            let status =
              ap
                (λ b.
                  if b && true
                  then check_replay_cache J P R ops
                      (verify_assertion J T P R ops S verify context cache state (some assertion)
                        now false mutual_auth).0.1
                      assertion later
                  else ok)
                (uses-flag context second.flags on plain) in
            absurd
              (let c : replayed_assertion ≡ ok = sym replayed ∙ (sym status ∙ second.fresh) in cc)
      ]
