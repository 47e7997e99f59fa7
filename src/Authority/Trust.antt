-- ===== src/Authority/Trust.antt =====
-- The issuers that `_BIDIssuerIsAuthoritative` accepts.
use libbrowserid.Prelude.{
  ℕ, zero, suc, ◌≡◌, ◌≢◌, ◌↔◌, ◌⊎◌, inl, inr, refl, sym, ap, ◌∙◌, Bool, true, false, ◌||◌, List, [],
  ◌∷◌, Option, none, some, Bool-cases, if◌then◌else◌,
}
use libbrowserid.Prelude.Int.{ℤ}
use libbrowserid.Status.{Result, good, bad, BidError, ok}
use libbrowserid.Base64.{codes}
use libbrowserid.Json.{Jansson, string_of, stored, set_json_timestamp_value}
use libbrowserid.Context.{Context}
use libbrowserid.Cache.{Operations}
use libbrowserid.Authority.{
  authority_equal, is_secondary, with_expiry, keep, acquire_from, from_cache, acquire_authority,
  next_authority, delegated, delegations, issuer_is_authoritative,
}

-- One of the names is the issuer's, without regard to case.
abbrev pub Among : List ℕ → List (List ℕ) → Type 0
Among issuer [] = ⊥
Among issuer (a ∷ rest) = (authority_equal issuer a ≡ true) ⊎ Among issuer rest

or_else :
    {P : Type 0} (b rest : Bool)
    → ((rest ≡ true) ↔ P)
    → ((if b then true else rest) ≡ true) ↔ ((b ≡ true) ⊎ P)
or_else true rest (f, g) = ((λ h. inl refl), (λ h. refl))
or_else {P} false rest (f, g) = ((λ h. inr (f h)), from)
  where
    from : (false ≡ true) ⊎ P → rest ≡ true
    from (inl h) = absurd cc
    from (inr p) = g p

is_secondary-Among :
    (issuer : List ℕ) (names : List (List ℕ))
    → (is_secondary issuer names ≡ true) ↔ Among issuer names
unfolding is_secondary
is_secondary-Among issuer [] = ((λ h. cc), (λ h. absurd h))
is_secondary-Among issuer (a ∷ rest) =
    or_else (authority_equal issuer a) (is_secondary issuer rest) (is_secondary-Among issuer rest)

module _ (J : Jansson) (S : Type 0) (ops : Operations J S) (retrieve : List ℕ → Result (J.json × ℤ))
    -- A retrieval that fails does not fail with BID_S_OK.
    (fails : (host : List ℕ) → retrieve host ≢ bad ok) (context : Context) (now : ℤ) where
  abbrev document : List ℕ → Option S → Result J.json × Option S
  document host cache = acquire_authority J S ops retrieve context cache host now

  stored-fails : (r : BidError × J.json) → stored J r ≢ bad ok
  stored-fails (ok, o) h = cc
  stored-fails (e, o) h = cc

  with_expiry-fails :
      (r : Result (J.json × ℤ)) → r ≢ bad ok → with_expiry J S ops retrieve r ≢ bad ok
  with_expiry-fails (bad e) ne h = ne (ap bad (let c : e ≡ ok = cc in c))
  with_expiry-fails (good (a, t)) ne h =
      stored-fails (set_json_timestamp_value J a (codes "exp") t) h

  pub document-fails : (host : List ℕ) (cache : Option S) → (document host cache).0 ≢ bad ok
  unfolding acquire_authority
  document-fails host cache h = from (from_cache J S ops retrieve context cache host now) h
    where
      kept :
          (r : Result J.json) → r ≢ bad ok → (keep J S ops retrieve context cache host r).0 ≢ bad ok
      kept (bad e) ne h = ne h
      kept (good a) ne h = cc

      from : (c : Option J.json) → (acquire_from J S ops retrieve context cache host c).0 ≢ bad ok
      from (some a) h = cc
      from none h =
          kept (with_expiry J S ops retrieve (retrieve host))
            (with_expiry-fails (retrieve host) (fails host)) h

  -- An authority delegates to an issuer in at most so many steps: its document names the issuer, or
  -- another authority that does so with a step less.
  pub data Delegates (issuer : List ℕ) : ℕ → J.json → Option S → Type 0 where
    names :
        {n : ℕ} {authority : J.json} {cache : Option S} (a : List ℕ)
        → string_of J (J.object_get authority (codes "authority")) ≡ some a
        → authority_equal issuer a ≡ true
        → Delegates issuer (suc n) authority cache
    follows :
        {n : ℕ} {authority next : J.json} {cache cache' : Option S} (a : List ℕ)
        → string_of J (J.object_get authority (codes "authority")) ≡ some a
        → document a cache ≡ (good next, cache')
        → Delegates issuer n next cache'
        → Delegates issuer (suc n) authority cache

  delegated→Delegates :
      (issuer : List ℕ) (n : ℕ) (authority : J.json) (cache : Option S)
      (rest : J.json → Option S → BidError × Option S)
      → ((x : J.json) (c : Option S) → (rest x c).0 ≡ ok → Delegates issuer n x c)
      → (o : Option (List ℕ)) → string_of J (J.object_get authority (codes "authority")) ≡ o
      → (delegated J S ops retrieve context now issuer rest cache o).0 ≡ ok
      → Delegates issuer (suc n) authority cache
  delegated→Delegates issuer n authority cache rest ih none e h = absurd cc
  delegated→Delegates issuer n authority cache rest ih (some a) e h =
      elim (Bool-cases (authority_equal issuer a)) [
        | inl same ↦ names a e same
        | inr differ ↦ step (document a cache) refl (
            sym (
              ap
                (λ b.
                  (if b
                    then (ok, cache)
                    else next_authority J S ops retrieve rest (document a cache)).0)
                differ)
            ∙ h)
      ]
    where
      step :
          (d : Result J.json × Option S)
          → document a cache ≡ d
          → (next_authority J S ops retrieve rest d).0 ≡ ok
          → Delegates issuer (suc n) authority cache
      step (bad x, c) de h = absurd (document-fails a cache (ap (λ p. p.0) de ∙ ap bad h))
      step (good x, c) de h = follows a e de (ih x c h)

  delegations→Delegates :
      (issuer : List ℕ) (n : ℕ) (authority : J.json) (cache : Option S)
      → (delegations J S ops retrieve context now issuer n authority cache).0 ≡ ok
      → Delegates issuer n authority cache
  unfolding delegations
  delegations→Delegates issuer zero authority cache h = absurd cc
  delegations→Delegates issuer (suc n) authority cache h =
      delegated→Delegates issuer n authority cache
        (delegations J S ops retrieve context now issuer n) (delegations→Delegates issuer n)
        (string_of J (J.object_get authority (codes "authority"))) refl h

  Delegates→delegations :
      (issuer : List ℕ) (n : ℕ) (authority : J.json) (cache : Option S)
      → Delegates issuer n authority cache
      → (delegations J S ops retrieve context now issuer n authority cache).0 ≡ ok
  unfolding delegations
  Delegates→delegations issuer _ authority cache (names {n} a e same) =
      ap
        (λ o.
          (delegated J S ops retrieve context now issuer
            (delegations J S ops retrieve context now issuer n) cache o).0)
        e
      ∙ ap
          (λ b.
            (if b
              then (ok, cache)
              else next_authority J S ops retrieve
                  (delegations J S ops retrieve context now issuer n) (document a cache)).0)
          same
  Delegates→delegations issuer _ authority cache (follows {n} {next} {cache'} a e d rest) =
      ap (λ o. (delegated J S ops retrieve context now issuer loop cache o).0) e
      ∙ ap
          (λ x.
            (if authority_equal issuer a
              then (ok, cache)
              else next_authority J S ops retrieve loop x).0)
          d
      ∙ either (authority_equal issuer a) (Delegates→delegations issuer n next cache' rest)
    where
      loop : J.json → Option S → BidError × Option S
      loop = delegations J S ops retrieve context now issuer n

      either :
          (b : Bool)
          → (loop next cache').0 ≡ ok
          → (if b then (ok, cache) else loop next cache').0 ≡ ok
      either true h = refl
      either false h = h

  -- The authority of a host, whose document can be had, delegates to the issuer.
  pub record IsDelegated (cache : Option S) (host issuer : List ℕ) : Type 0 where
    pub authority : J.json
    pub kept : Option S
    pub acquired : document host cache ≡ (good authority, kept)
    pub delegates : Delegates issuer context.max_delegations authority kept

  -- The parts of `_BIDIssuerIsAuthoritative`: a direct trust, or else the delegations.
  IsDelegated-iff :
      (cache : Option S) (host issuer : List ℕ)
      → ((next_authority J S ops retrieve
            (delegations J S ops retrieve context now issuer context.max_delegations)
            (document host cache)).0
          ≡ ok)
        ↔ IsDelegated cache host issuer
  IsDelegated-iff cache host issuer = (to (document host cache) refl, from)
    where
      loop : J.json → Option S → BidError × Option S
      loop = delegations J S ops retrieve context now issuer context.max_delegations

      to :
          (d : Result J.json × Option S)
          → document host cache ≡ d
          → (next_authority J S ops retrieve loop d).0 ≡ ok
          → IsDelegated cache host issuer
      to (bad e, c) de h = absurd (document-fails host cache (ap (λ p. p.0) de ∙ ap bad h))
      to (good a, c) de h = record {
        authority = a;
        kept = c;
        acquired = de;
        delegates = delegations→Delegates issuer context.max_delegations a c h;
      }

      from :
          IsDelegated cache host issuer
          → (next_authority J S ops retrieve loop (document host cache)).0 ≡ ok
      from i =
          ap (λ d. (next_authority J S ops retrieve loop d).0) i.acquired
          ∙ Delegates→delegations issuer context.max_delegations i.authority i.kept i.delegates

  -- `_BIDIssuerIsAuthoritative` accepts an issuer for a host exactly if it is the host itself, or one
  -- of the secondary authorities, or the host's authority delegates to it in at most as many steps
  -- as the context allows, each over a document that could be had. Names are compared without regard
  -- to case, and a retrieval that fails does so with an error.
  pub issuer_is_authoritative_iff :
      (cache : Option S) (host issuer : List ℕ)
      → ((issuer_is_authoritative J S ops retrieve context cache host issuer now).0 ≡ ok) ↔ (
          (authority_equal host issuer ≡ true)
          ⊎ (Among issuer context.secondary_authorities ⊎ IsDelegated cache host issuer))
  unfolding issuer_is_authoritative
  issuer_is_authoritative_iff cache host issuer =
      three (authority_equal host issuer) (is_secondary issuer context.secondary_authorities) _
        (is_secondary-Among issuer context.secondary_authorities)
        (IsDelegated-iff cache host issuer)
    where
      three :
          (a b : Bool) (r : BidError × Option S)
          → ((b ≡ true) ↔ Among issuer context.secondary_authorities)
          → ((r.0 ≡ ok) ↔ IsDelegated cache host issuer)
          → ((if a || b then (ok, cache) else r).0 ≡ ok) ↔ (
              (a ≡ true)
              ⊎ (Among issuer context.secondary_authorities ⊎ IsDelegated cache host issuer))
      three true b r second last = ((λ h. inl refl), (λ h. refl))
      three false true r second last = ((λ h. inr (inl (second.0 refl))), (λ h. refl))
      three false false r second last = ((λ h. inr (inr (last.0 h))), back)
        where
          back :
              (false ≡ true)
                ⊎ (Among issuer context.secondary_authorities ⊎ IsDelegated cache host issuer)
              → r.0 ≡ ok
          back (inl h) = absurd cc
          back (inr (inl h)) = absurd (let c : false ≡ true = second.1 h in cc)
          back (inr (inr h)) = last.1 h
