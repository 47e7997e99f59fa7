-- ===== src/Replay/Attributes.antt =====
-- Recording an assertion leaves the attributes of the identity alone.
use libbrowserid.Prelude.{ℕ, ◌≡◌, refl, Bool, true, false, List, Option, none, some, if◌then◌else◌}
use libbrowserid.Prelude.Int.{ℤ}
use libbrowserid.Status.{Result, good, bad, BidError, ok, ◌>>=◌}
use libbrowserid.Base64.{codes}
use libbrowserid.Json.{Jansson, put, allocated, json_binary_value}
use libbrowserid.Json.Opts.{has_flag}
use libbrowserid.Context.{Context, Identity}
use libbrowserid.Crypto.{
  Primitives, agreed, agree_on, get_key_agreement_object, digest_assertion, derive_session_subkey,
  identity_secret_agreement, save_key_agreement_strength,
}
use libbrowserid.Cache.{Operations, set_cache_object}
use libbrowserid.Replay.{
  time_of, put_time, put_nonzero, put_flags, stores_creds, ticket_expiry, renewed_expiry,
  ticket_flags, reauth_flag, ticket_record, plain_record, replay_record, digested, recorded, issued,
  with_ticket, update_replay_cache,
}

-- What a result has, if there is one.
abbrev Each : {A : Type 0} → (A → Type 0) → Result A → Type 0
Each Q (good a) = Q a
Each Q (bad e) = Unit

bind-Each :
    {A B : Type 0} (Q : A → Type 0) (R : B → Type 0) (m : Result A) (f : A → Result B)
    → Each Q m
    → ((a : A) → Q a → Each R (f a))
    → Each R (m >>= f)
bind-Each Q R (good a) f q h = h a q
bind-Each Q R (bad e) f q h = tt

-- A step of which nothing is needed.
any-Each :
    {A B : Type 0} (R : B → Type 0) (m : Result A) (f : A → Result B)
    → ((a : A) → Each R (f a))
    → Each R (m >>= f)
any-Each R (good a) f h = h a
any-Each R (bad e) f h = tt

module _ (J : Jansson) (P : Primitives J) (context : Context) (identity : Identity J P.secret) where
  -- An identity with the same attributes, beside something else.
  abbrev Same : {A : Type 0} → A × Identity J P.secret → Type 0
  Same p = p.1.attributes ≡ identity.attributes

  agreed-Each : (s : Option P.secret) → Each Same (agreed J P context identity s)
  agreed-Each (some s) = refl
  agreed-Each none =
      any-Each Same (get_key_agreement_object J (some identity.private_attributes)) _
        (λ dh. any-Each Same (agree_on J P context dh) _ (λ s. refl))

  derive-Each : (salt : List ℕ) → Each Same (derive_session_subkey J P context identity salt)
  unfolding derive_session_subkey identity_secret_agreement
  derive-Each salt =
      bind-Each Same Same (agreed J P context identity identity.secret_handle) _
        (agreed-Each identity.secret_handle)
        (λ p same. any-Each Same (P.derive_key p.0 salt) _ (λ subkey.
          any-Each Same (allocated J J.object) _ (λ key.
            any-Each Same (json_binary_value J subkey) _ (λ sk.
              any-Each Same (put J key (codes "secret-key") (some sk) false) _ (λ k. same)))))

  ticket-Each :
      (o : J.json) (now renew : ℤ) (flags : ℕ) (mutual_auth : Bool)
      → Each Same (ticket_record J P context identity o now renew flags mutual_auth)
  unfolding ticket_record
  ticket-Each o now renew flags mutual_auth =
      bind-Each Same Same (derive_session_subkey J P context identity (codes "ARK")) _
        (derive-Each (codes "ARK"))
        (λ p same. any-Each Same (put J o (codes "ark") (some p.0) false) _ (λ a.
          any-Each Same (put_flags J a (ticket_flags J (has_flag flags reauth_flag) mutual_auth)) _
            (λ b. any-Each Same (put_nonzero J b (codes "exp") (ticket_expiry context now)) _ (λ c.
              any-Each Same
                (put_nonzero J c (codes "renew-exp") (renewed_expiry context now renew flags)) _
                (λ d.
                  any-Each Same
                    (save_key_agreement_strength J context.options.ecdh_keyex
                      identity.private_attributes d)
                    _ (λ e. same))))))

  record-Each :
      (now : ℤ) (flags : ℕ) (mutual_auth : Bool)
      → Each Same (replay_record J P context identity now flags mutual_auth)
  unfolding replay_record
  record-Each now flags mutual_auth = from (stores_creds context now renew flags)
    where
      renew : ℤ
      renew = time_of J (some identity.private_attributes) (codes "renew-exp")

      entry :
          (b : Bool) (o : J.json)
          → Each Same (
              if b
              then ticket_record J P context identity o now renew flags mutual_auth
              else plain_record J P identity o)
      entry true o = ticket-Each o now renew flags mutual_auth
      entry false o =
          any-Each Same
            (put J o (codes "exp") (J.object_get identity.attributes (codes "exp")) true) _
            (λ x. refl)

      from :
          (creds : Bool)
          → Each Same (do
            rdata ← allocated J (if creds then J.copy identity.attributes else J.object)
            with_issue ← put_time J rdata (codes "iat") now
            dated ←
                put J with_issue
                  (codes "a-exp")
                  (J.object_get identity.private_attributes (codes "a-exp"))
                  false
            if creds
                then ticket_record J P context identity dated now renew flags mutual_auth
                else plain_record J P identity dated)
      from creds =
          any-Each Same (allocated J (if creds then J.copy identity.attributes else J.object)) _
            (λ r. any-Each Same (put_time J r (codes "iat") now) _ (λ w.
              any-Each Same
                (put J w (codes "a-exp") (J.object_get identity.private_attributes (codes "a-exp"))
                  false)
                _ (λ d. entry creds d)))

  with_ticket-Each :
      (i : Identity J P.secret) (digest rdata : J.json)
      → i.attributes ≡ identity.attributes
      → Each (λ j. j.attributes ≡ identity.attributes) (with_ticket J P i digest rdata)
  with_ticket-Each i digest rdata same = any-Each Q (allocated J J.object) _ (λ tkt.
      any-Each Q (put J tkt (codes "tid") (some digest) true) _ (λ named.
        any-Each Q (put J named (codes "exp") (J.object_get rdata (codes "exp")) false) _ (λ dated.
          any-Each Q (put J i.private_attributes (codes "tkt") (some dated) false) _ (λ p. same))))
    where
      Q : Identity J P.secret → Type 0
      Q j = j.attributes ≡ identity.attributes

module _ (J : Jansson) (P : Primitives J) (S : Type 0) (ops : Operations J S) (context : Context)
    (identity : Identity J P.secret) where
  recorded-attributes :
      (creds : Bool) (digest rdata : J.json) (i : Identity J P.secret) (r : BidError × Option S)
      → i.attributes ≡ identity.attributes
      → (recorded J P S ops creds digest rdata i r).2.attributes ≡ identity.attributes
  recorded-attributes true digest rdata i (ok, c) same =
      from (with_ticket J P i digest rdata)
        (with_ticket-Each J P context identity i digest rdata same)
    where
      from :
          (t : Result (Identity J P.secret))
          → Each (λ j. j.attributes ≡ identity.attributes) t
          → (issued J P S ops c i t).2.attributes ≡ identity.attributes
      from (good j) h = h
      from (bad e) h = same
  recorded-attributes false digest rdata i (ok, c) same = same
  recorded-attributes creds digest rdata i (e, c) same = same

  pub update-attributes :
      (cache : Option S) (assertion : List ℕ) (now : ℤ) (flags : ℕ) (mutual_auth : Bool)
      → (update_replay_cache J P S ops context cache identity assertion now flags
          mutual_auth).2.attributes
        ≡ identity.attributes
  unfolding update_replay_cache
  update-attributes cache assertion now flags mutual_auth =
      from (digest_assertion J P assertion)
        (replay_record J P context identity now flags mutual_auth)
        (record-Each J P context identity now flags mutual_auth)
    where
      creds : Bool
      creds =
          stores_creds context now
            (time_of J (some identity.private_attributes) (codes "renew-exp")) flags

      from :
          (q : Result J.json) (r : Result (J.json × Identity J P.secret))
          → Each (Same J P context identity) r
          → (digested J P S ops creds cache identity r q).2.attributes ≡ identity.attributes
      from (bad e) r h = refl
      from (good d) (bad e) h = refl
      from (good d) (good (o, i)) h =
          recorded-attributes creds d o i
            (set_cache_object J S ops cache (J.string_value d) (some o)) h
