-- ===== src/Replay/Honest.antt =====
-- The record of an assertion is not refused with BID_S_OK.
use libbrowserid.Prelude.{ℕ, Bool, true, false, List, some, ◌==◌, if◌then◌else◌}
use libbrowserid.Prelude.Int.{ℤ, pos}
use libbrowserid.Status.{good, ◌>>=◌}
use libbrowserid.Base64.{codes}
use libbrowserid.Json.{Jansson, put, allocated}
use libbrowserid.Json.Opts.{has_flag}
use libbrowserid.Verify.{is_zero}
use libbrowserid.Context.{Context, Identity}
use libbrowserid.Crypto.{Primitives, derive_session_subkey, save_key_agreement_strength}
use libbrowserid.Crypto.Honest.{
  Honest, AreHonest, bind-Honest, stored-Honest, allocated-Honest, strength-Honest,
  derive_session_subkey-Honest,
}
use libbrowserid.Replay.{
  time_of, put_time, put_nonzero, put_flags, stores_creds, ticket_expiry, renewed_expiry,
  ticket_flags, reauth_flag, ticket_record, plain_record, replay_record,
}

module _ (J : Jansson) where
  nonzero-Honest : (o : J.json) (k : List ℕ) (t : ℤ) → Honest (put_nonzero J o k t)
  nonzero-Honest o k t = from (is_zero t)
    where
      from : (b : Bool) → Honest (if b then good o else put_time J o k t)
      from true = tt
      from false = stored-Honest J _

  flags-Honest : (o : J.json) (flags : ℕ) → Honest (put_flags J o flags)
  flags-Honest o flags = from (flags == 0)
    where
      from :
          (b : Bool)
          → Honest
              (if b then good o else put J o (codes "flags") (some (J.integer (pos flags))) true)
      from true = tt
      from false = stored-Honest J _

module _ (J : Jansson) (P : Primitives J) (A : AreHonest J P) (context : Context) where
  ticket-Honest :
      (identity : Identity J P.secret) (o : J.json) (now renew : ℤ) (flags : ℕ) (mutual_auth : Bool)
      → Honest (ticket_record J P context identity o now renew flags mutual_auth)
  unfolding ticket_record
  ticket-Honest identity o now renew flags mutual_auth =
      bind-Honest (derive_session_subkey J P context identity (codes "ARK")) _
        (derive_session_subkey-Honest J P A context identity (codes "ARK"))
        (λ p. bind-Honest (put J o (codes "ark") (some p.0) false) _ (stored-Honest J _) (λ a.
          bind-Honest (put_flags J a (ticket_flags J (has_flag flags reauth_flag) mutual_auth)) _
            (flags-Honest J a _)
            (λ b.
              bind-Honest (put_nonzero J b (codes "exp") (ticket_expiry context now)) _
                (nonzero-Honest J b (codes "exp") (ticket_expiry context now))
                (λ c.
                  bind-Honest
                    (put_nonzero J c (codes "renew-exp") (renewed_expiry context now renew flags)) _
                    (nonzero-Honest J c (codes "renew-exp")
                      (renewed_expiry context now renew flags))
                    (λ d.
                      bind-Honest
                        (save_key_agreement_strength J context.options.ecdh_keyex
                          identity.private_attributes d)
                        _
                        (strength-Honest J context.options.ecdh_keyex identity.private_attributes d)
                        (λ e. tt))))))

  pub record-Honest :
      (identity : Identity J P.secret) (now : ℤ) (flags : ℕ) (mutual_auth : Bool)
      → Honest (replay_record J P context identity now flags mutual_auth)
  unfolding replay_record
  record-Honest identity now flags mutual_auth = from (stores_creds context now renew flags)
    where
      renew : ℤ
      renew = time_of J (some identity.private_attributes) (codes "renew-exp")

      entry :
          (b : Bool) (o : J.json)
          → Honest (
              if b
              then ticket_record J P context identity o now renew flags mutual_auth
              else plain_record J P identity o)
      entry true o = ticket-Honest identity o now renew flags mutual_auth
      entry false o =
          bind-Honest (put J o (codes "exp") (J.object_get identity.attributes (codes "exp")) true)
            _ (stored-Honest J _) (λ x. tt)

      from :
          (creds : Bool)
          → Honest (do
            rdata ← allocated J (if creds then J.copy identity.attributes else J.object)
            with_issue ← put_time J rdata (codes "iat") now
            dated ←
                put J with_issue
                  (codes "a-exp")
                  (J.object_get identity.private_attributes (codes "a-exp"))
                  false
            if creds
                then ticket_record J P context identity dated now renew flags mutual_auth
                else plain_record J P identity dated)
      from creds =
          bind-Honest (allocated J (if creds then J.copy identity.attributes else J.object)) _
            (allocated-Honest J _)
            (λ r. bind-Honest (put_time J r (codes "iat") now) _ (stored-Honest J _) (λ w.
              bind-Honest
                (put J w (codes "a-exp") (J.object_get identity.private_attributes (codes "a-exp"))
                  false)
                _ (stored-Honest J _) (λ d. entry creds d)))
