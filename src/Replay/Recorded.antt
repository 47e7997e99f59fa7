-- ===== src/Replay/Recorded.antt =====
-- The expiry of what is recorded for an assertion.
use libbrowserid.Prelude.{
  ℕ, ◌≡◌, ◌≢◌, refl, sym, ap, ◌∙◌, Bool, true, false, List, Option, none, some, ◌==◌, if◌then◌else◌,
  not, ◌&&◌,
}
use libbrowserid.Prelude.Int.{ℤ, pos, thousand_times}
use libbrowserid.Status.{Result, good, bad, ◌>>=◌, >>=_good, good-injective}
use libbrowserid.Base64.{codes}
use libbrowserid.Json.{
  Jansson, IsJansson, IsInt64, put, allocated, timestamp_of, get_json_timestamp_value,
  set_json_timestamp_value,
}
use libbrowserid.Json.Access.{get-set_json_timestamp_value}
use libbrowserid.Json.Change.{distinct, stored-good, put_elsewhere, put_required}
use libbrowserid.Json.Opts.{has_flag}
use libbrowserid.Verify.{is_zero}
use libbrowserid.Context.{Context, Identity}
use libbrowserid.Crypto.{
  Primitives, derive_session_subkey, save_key_agreement_strength, strength_of,
}
use libbrowserid.Replay.{
  time_of, put_time, put_nonzero, put_flags, stores_creds, ticket_expiry, renewed_expiry,
  ticket_flags, ticket_record, plain_record, replay_record, reauth_flag,
}

if_not {ℓ} : {A : Type ℓ} (b : Bool) (x y : A) → (if b then x else y) ≡ (if not b then y else x)
if_not true x y = refl
if_not false x y = refl

module _ (J : Jansson) (L : IsJansson J) where
  same_time :
      (o o' : J.json) (k : List ℕ)
      → J.object_get o k ≡ J.object_get o' k
      → time_of J (some o) k ≡ time_of J (some o') k
  unfolding get_json_timestamp_value
  same_time o o' k h = ap (λ r. (timestamp_of J r).1) h

  abbrev expiry_of : J.json → Option J.json
  expiry_of o = J.object_get o (codes "exp")

  put_time_elsewhere :
      (o o' : J.json) (k l : List ℕ) (ts : ℤ)
      → k ≢ l
      → put_time J o k ts ≡ good o'
      → J.object_get o' l ≡ J.object_get o l
  unfolding set_json_timestamp_value
  put_time_elsewhere o o' k l ts ne h =
      put_elsewhere J L o o' k l (some (J.integer (thousand_times ts))) false ne h

  put_nonzero_elsewhere :
      (o o' : J.json) (k l : List ℕ) (ts : ℤ)
      → k ≢ l
      → put_nonzero J o k ts ≡ good o'
      → J.object_get o' l ≡ J.object_get o l
  put_nonzero_elsewhere o o' k l ts ne h = from (is_zero ts) h
    where
      from :
          (b : Bool)
          → (if b then good o else put_time J o k ts) ≡ good o'
          → J.object_get o' l ≡ J.object_get o l
      from true h = ap (λ x. J.object_get x l) (let c : o' ≡ o = cc in c)
      from false h = put_time_elsewhere o o' k l ts ne h

  put_flags_elsewhere :
      (o o' : J.json) (l : List ℕ) (flags : ℕ)
      → codes "flags" ≢ l
      → put_flags J o flags ≡ good o'
      → J.object_get o' l ≡ J.object_get o l
  put_flags_elsewhere o o' l flags ne h = from (flags == 0) h
    where
      from :
          (b : Bool)
          → (if b then good o else put J o (codes "flags") (some (J.integer (pos flags))) true)
            ≡ good o'
          → J.object_get o' l ≡ J.object_get o l
      from true h = ap (λ x. J.object_get x l) (let c : o' ≡ o = cc in c)
      from false h = put_elsewhere J L o o' (codes "flags") l _ true ne h

  -- A time that is zero leaves the one that was there.
  time-put_nonzero :
      (o o' : J.json) (k : List ℕ) (ts : ℤ)
      → IsInt64 (thousand_times ts)
      → put_nonzero J o k ts ≡ good o'
      → time_of J (some o') k ≡ (if is_zero ts then time_of J (some o) k else ts)
  time-put_nonzero o o' k ts fits h = from (is_zero ts) h
    where
      from :
          (b : Bool)
          → (if b then good o else put_time J o k ts) ≡ good o'
          → time_of J (some o') k ≡ (if b then time_of J (some o) k else ts)
      from true h = ap (λ x. time_of J (some x) k) (let c : o' ≡ o = cc in c)
      from false h =
          ap (λ p. p.1) (get-set_json_timestamp_value J L o o' k ts fits (stored-good J _ o' h)).0

  strength_elsewhere :
      (ecdh_keyex : Bool) (private o o' : J.json) (l : List ℕ)
      → codes "crv" ≢ l
      → save_key_agreement_strength J ecdh_keyex private o ≡ good o'
      → J.object_get o' l ≡ J.object_get o l
  unfolding save_key_agreement_strength
  strength_elsewhere ecdh_keyex private o o' l ne h = from ecdh_keyex _ _ h
    where
      from :
          (b : Bool) (crv : Option J.json) (dh : Result J.json)
          → strength_of J b private o crv dh ≡ good o'
          → J.object_get o' l ≡ J.object_get o l
      from b (some _) dh h = ap (λ x. J.object_get x l) (let c : o' ≡ o = cc in c)
      from b none (bad _) h = put_elsewhere J L o o' (codes "crv") l _ false ne h
      from true none (good dh) h = put_elsewhere J L o o' (codes "crv") l _ true ne h
      from false none (good dh) h = ap (λ x. J.object_get x l) (let c : o' ≡ o = cc in c)

  allocated-good : (r : Option J.json) (o : J.json) → allocated J r ≡ good o → r ≡ some o
  allocated-good none o h = absurd cc
  allocated-good (some o') o h = ap some (good-injective h)

  -- The two members that every record gets first.
  dated-kept :
      (r w d : J.json) (now : ℤ) (expiry : Option J.json)
      → put_time J r (codes "iat") now ≡ good w
      → put J w (codes "a-exp") expiry false ≡ good d
      → expiry_of d ≡ expiry_of r
  dated-kept r w d now expiry e₂ e₃ =
      put_elsewhere J L w d (codes "a-exp") (codes "exp") expiry false
        (distinct (codes "a-exp") (codes "exp") refl) e₃
      ∙ put_time_elsewhere r w (codes "iat") (codes "exp") now
          (distinct (codes "iat") (codes "exp") refl) e₂

  module _ (P : Primitives J) (context : Context) where
    -- The expiry of a ticket's record.
    ticket_record-expiry :
        (identity identity' : Identity J P.secret) (o o' : J.json) (now renew_expiry : ℤ)
        (flags : ℕ) (mutual_auth : Bool)
        → IsInt64 (thousand_times (ticket_expiry context now))
        → ticket_record J P context identity o now renew_expiry flags mutual_auth
          ≡ good (o', identity')
        → time_of J (some o') (codes "exp") ≡ (
            if is_zero (ticket_expiry context now)
            then time_of J (some o) (codes "exp")
            else ticket_expiry context now)
    unfolding ticket_record
    ticket_record-expiry identity identity' o o' now renew_expiry flags mutual_auth fits h =
        let ((ark, i'), _, h₁) =
          >>=_good (derive_session_subkey J P context identity (codes "ARK")) _ _ h in
        let (a, e₁, h₂) = >>=_good (put J o (codes "ark") (some ark) false) _ _ h₁ in
        let (b, e₂, h₃) =
          >>=_good (put_flags J a (ticket_flags J (has_flag flags reauth_flag) mutual_auth)) _ _
            h₂ in
        let (c, e₃, h₄) =
          >>=_good (put_nonzero J b (codes "exp") (ticket_expiry context now)) _ _ h₃ in
        let (d, e₄, h₅) =
          >>=_good
            (put_nonzero J c (codes "renew-exp") (renewed_expiry context now renew_expiry flags)) _
            _ h₄ in
        let (e, e₅, h₆) =
          >>=_good
            (save_key_agreement_strength J context.options.ecdh_keyex identity.private_attributes d)
            _ _ h₅ in
        let last : e ≡ o' = ap (λ p. p.0) (good-injective h₆) in
        let behind : expiry_of e ≡ expiry_of c =
          strength_elsewhere context.options.ecdh_keyex identity.private_attributes d e
            (codes "exp") (distinct (codes "crv") (codes "exp") refl) e₅
          ∙ put_nonzero_elsewhere c d (codes "renew-exp") (codes "exp")
              (renewed_expiry context now renew_expiry flags)
              (distinct (codes "renew-exp") (codes "exp") refl) e₄ in
        let before : expiry_of b ≡ expiry_of o =
          put_flags_elsewhere a b (codes "exp") _ (distinct (codes "flags") (codes "exp") refl) e₂
          ∙ put_elsewhere J L o a (codes "ark") (codes "exp") (some ark) false
              (distinct (codes "ark") (codes "exp") refl) e₁ in
        ap (λ x. time_of J (some x) (codes "exp")) (sym last)
        ∙ (same_time e c (codes "exp") behind
            ∙ (time-put_nonzero b c (codes "exp") (ticket_expiry context now) fits e₃
                ∙ ap
                    (λ t.
                      if is_zero (ticket_expiry context now) then t else ticket_expiry context now)
                    (same_time b o (codes "exp") before)))

    -- The expiry of what is recorded: that of the ticket, if one is issued and its lifetime is
    -- limited, else that of the attributes, which are those of the leaf certificate.
    abbrev pub recorded_expiry : Identity J P.secret → ℤ → ℕ → ℤ
    recorded_expiry identity now flags =
        let renew_expiry = time_of J (some identity.private_attributes) (codes "renew-exp") in
        if stores_creds context now renew_expiry flags && not (is_zero (ticket_expiry context now))
        then ticket_expiry context now
        else time_of J (some identity.attributes) (codes "exp")

    pub replay_record-expiry :
        (identity identity' : Identity J P.secret) (o : J.json) (now : ℤ) (flags : ℕ)
        (mutual_auth : Bool)
        → IsInt64 (thousand_times (ticket_expiry context now))
        → replay_record J P context identity now flags mutual_auth ≡ good (o, identity')
        → time_of J (some o) (codes "exp") ≡ recorded_expiry identity now flags
    unfolding replay_record
    replay_record-expiry identity identity' o now flags mutual_auth fits h =
        from (stores_creds context now renew_expiry flags) h
      where
        renew_expiry : ℤ
        renew_expiry = time_of J (some identity.private_attributes) (codes "renew-exp")

        from :
            (creds : Bool)
            → (do
              rdata ← allocated J (if creds then J.copy identity.attributes else J.object)
              with_issue ← put_time J rdata (codes "iat") now
              dated ←
                  put J with_issue
                    (codes "a-exp")
                    (J.object_get identity.private_attributes (codes "a-exp"))
                    false
              if creds
                  then ticket_record J P context identity dated now renew_expiry flags mutual_auth
                  else plain_record J P identity dated)
              ≡ good (o, identity')
            → time_of J (some o) (codes "exp") ≡ (
                if creds && not (is_zero (ticket_expiry context now))
                then ticket_expiry context now
                else time_of J (some identity.attributes) (codes "exp"))
        from true h =
            let (r, e₁, h₁) = >>=_good (allocated J (J.copy identity.attributes)) _ _ h in
            let (w, e₂, h₂) = >>=_good (put_time J r (codes "iat") now) _ _ h₁ in
            let (d, e₃, h₃) = >>=_good (put J w (codes "a-exp") _ false) _ _ h₂ in
            let kept : expiry_of d ≡ expiry_of identity.attributes =
              dated-kept r w d now _ e₂ e₃
              ∙ L.get-copy identity.attributes r (codes "exp") (allocated-good _ r e₁) in
            ticket_record-expiry identity identity' d o now renew_expiry flags mutual_auth fits h₃
            ∙ (ap
                  (λ t.
                    if is_zero (ticket_expiry context now) then t else ticket_expiry context now)
                  (same_time d identity.attributes (codes "exp") kept)
                ∙ if_not (is_zero (ticket_expiry context now)) _ _)
        from false h =
            let (r, _, h₁) = >>=_good (allocated J J.object) _ _ h in
            let (w, _, h₂) = >>=_good (put_time J r (codes "iat") now) _ _ h₁ in
            let (d, _, h₃) = >>=_good (put J w (codes "a-exp") _ false) _ _ h₂ in
            let (x, e₄, h₄) =
              >>=_good (put J d (codes "exp") (J.object_get identity.attributes (codes "exp")) true)
                _ _ h₃ in
            let last : x ≡ o = ap (λ p. p.0) (good-injective h₄) in
            ap (λ y. time_of J (some y) (codes "exp")) (sym last)
            ∙ same_time x identity.attributes (codes "exp")
                (put_required J L d x (codes "exp") _ e₄)
