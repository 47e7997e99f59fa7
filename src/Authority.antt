-- ===== src/Authority.antt =====
-- libbrowserid/bid_authority.c: the document of an authority, from the cache or the network, and the
-- issuers that are authoritative for a host.
pub mod Trust
mod Tests
use libbrowserid.Prelude.{
  ℕ, zero, suc, Bool, true, false, ◌||◌, List, [], ◌∷◌, Option, none, some, map, if◌then◌else◌,
}
use libbrowserid.Prelude.Int.{ℤ}
use libbrowserid.Status.{
  Result, good, bad, BidError, ok, no_key, untrusted_issuer, invalid_parameter,
}
use libbrowserid.Base64.{codes}
use libbrowserid.Spn.{str_eq, tolower}
use libbrowserid.Json.{Jansson, string_of, stored, set_json_timestamp_value}
use libbrowserid.Verify.{is_ok, validate_expiry}
use libbrowserid.Context.{Context}
use libbrowserid.Cache.{Operations, get_cache_object, set_cache_object}

-- `_BIDAuthorityEqual`: `strcasecmp` in the C locale.
abbrev pub authority_equal : List ℕ → List ℕ → Bool
authority_equal a1 a2 = str_eq (map tolower a1) (map tolower a2)

-- The loop over the secondary authorities of `_BIDIssuerIsAuthoritative`.
pub is_secondary : List ℕ → List (List ℕ) → Bool
is_secondary issuer [] = false
is_secondary issuer (a ∷ rest) =
    let among = is_secondary issuer rest in if authority_equal issuer a then true else among

abbrev pub key_of : (J : Jansson) → J.json → Option J.json → Result J.json
key_of J authority none = bad no_key
key_of J authority (some _) = good authority

-- `_BIDGetAuthorityPublicKey`: the key set is the document.
unfoldable pub get_authority_public_key : (J : Jansson) → J.json → Result J.json
get_authority_public_key J authority =
    key_of J authority (J.object_get authority (codes "public-key"))

module _ (J : Jansson) (S : Type 0) (ops : Operations J S)
    -- `_BIDRetrieveDocument` of a host: the well-known document and its expiry.
    (retrieve : List ℕ → Result (J.json × ℤ)) where
  -- A cached document, if there is one and `_BIDValidateExpiry` accepts it.
  abbrev cached : ℕ → ℤ → Result J.json → Option J.json
  cached skew now (bad e) = none
  cached skew now (good authority) =
      if is_ok (validate_expiry J skew now (some authority)) then some authority else none

  abbrev from_cache : Context → Option S → List ℕ → ℤ → Option J.json
  from_cache context cache host now =
      if context.options.authority_cache
      then cached context.skew now (get_cache_object J S ops cache (some host))
      else none

  -- A document that was retrieved is put into the cache; a failure to do so is not an error.
  abbrev keep : Context → Option S → List ℕ → Result J.json → Result J.json × Option S
  keep context cache host (bad e) = (bad e, cache)
  keep context cache host (good authority) = (
    good authority,
    if context.options.authority_cache
        then (set_cache_object J S ops cache (some host) (some authority)).1
        else cache,
  )

  abbrev with_expiry : Result (J.json × ℤ) → Result J.json
  with_expiry (bad e) = bad e
  with_expiry (good (authority, expiry)) =
      stored J (set_json_timestamp_value J authority (codes "exp") expiry)

  abbrev acquire_from : Context → Option S → List ℕ → Option J.json → Result J.json × Option S
  acquire_from context cache host (some authority) = (good authority, cache)
  acquire_from context cache host none = keep context cache host (with_expiry (retrieve host))

  -- `_BIDAcquireAuthority`: the document, and the cache.
  unfoldable pub acquire_authority : Context → Option S → List ℕ → ℤ → Result J.json × Option S
  acquire_authority context cache host now =
      acquire_from context cache host (from_cache context cache host now)

  abbrev next_authority :
      (J.json → Option S → BidError × Option S) → Result J.json × Option S → BidError × Option S
  next_authority rest (bad e, cache) = (e, cache)
  next_authority rest (good authority, cache) = rest authority cache

  abbrev delegated :
      Context
      → ℤ
      → List ℕ
      → (J.json → Option S → BidError × Option S)
      → Option S
      → Option (List ℕ)
      → BidError × Option S
  delegated context now issuer rest cache none = (untrusted_issuer, cache)
  delegated context now issuer rest cache (some a) =
      if authority_equal issuer a
      then (ok, cache)
      else next_authority rest (acquire_authority context cache a now)

  -- The loop of `_BIDIssuerIsAuthoritative` over the delegations, with those that are left, the
  -- authority and the cache. Its end leaves `bIsAuthoritative` at -1.
  pub delegations : Context → ℤ → List ℕ → ℕ → J.json → Option S → BidError × Option S
  delegations context now issuer zero authority cache = (untrusted_issuer, cache)
  delegations context now issuer (suc n) authority cache =
      delegated context now issuer (delegations context now issuer n) cache
        (string_of J (J.object_get authority (codes "authority")))

  -- `_BIDIssuerIsAuthoritative`, of a host and an issuer that are not NULL.
  unfoldable pub issuer_is_authoritative :
      Context → Option S → List ℕ → List ℕ → ℤ → BidError × Option S
  unfolding is_secondary delegations
  issuer_is_authoritative context cache host issuer now =
      if authority_equal host issuer || is_secondary issuer context.secondary_authorities
      then (ok, cache)
      else next_authority (delegations context now issuer context.max_delegations)
          (acquire_authority context cache host now)
