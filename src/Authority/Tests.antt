-- ===== src/Authority/Tests.antt =====
-- A host that delegates to another, which has a key.
use libbrowserid.Prelude.{
  ℕ, ◌≡◌, ◌≢◌, ◌⊎◌, refl, Bool, true, false, List, [], ◌∷◌, none, if◌then◌else◌,
}
use libbrowserid.Prelude.Int.{ℤ, pos}
use libbrowserid.Status.{Result, good, bad, ok, http_error, untrusted_issuer}
use libbrowserid.Base64.{codes}
use libbrowserid.Spn.{str_eq}
use libbrowserid.Json.{set_json_timestamp_value}
use libbrowserid.Json.Model.{model, Value, text, members, member, end}
use libbrowserid.Jwt.Model.{two_texts}
use libbrowserid.Context.Model.{context}
use libbrowserid.Cache.Memory.{MemoryCache, memory_cache}
use libbrowserid.Authority.{authority_equal, acquire_authority, issuer_is_authoritative}
use libbrowserid.Authority.Trust.{Among, IsDelegated, issuer_is_authoritative_iff}

abbrev delegating : Value
delegating = members (member (codes "authority") (text (codes "id.example.org")) end)

abbrev document_of : List ℕ → Result (Value × ℤ)
document_of host =
    if str_eq host (codes "example.com") then good (delegating, pos 2000) else bad http_error

had : (host : List ℕ) → document_of host ≢ bad ok
had host h = from (str_eq host (codes "example.com")) h
  where
    from :
        (b : Bool)
        → ◌≢◌ {A = Result (Value × ℤ)}
            (if b then good (delegating, pos 2000) else bad http_error)
            (bad ok)
    from true h = cc
    from false h = cc

issuer_is_authoritative_iff_example :
    (authority_equal (codes "example.com") (codes "ID.example.org") ≡ true)
    ⊎ (Among (codes "ID.example.org") (codes "login.persona.org" ∷ [])
        ⊎ IsDelegated model
            (MemoryCache model)
            (memory_cache model two_texts (pos 0))
            document_of
            had
            (context false 0 6)
            (pos 1000)
            none
            (codes "example.com")
            (codes "ID.example.org"))
unfolding issuer_is_authoritative acquire_authority set_json_timestamp_value
issuer_is_authoritative_iff_example =
    (issuer_is_authoritative_iff model (MemoryCache model) (memory_cache model two_texts (pos 0))
        document_of had (context false 0 6) (pos 1000) none (codes "example.com")
        (codes "ID.example.org")).0
      refl

no_delegations :
    (issuer_is_authoritative model
      (MemoryCache model)
      (memory_cache model two_texts (pos 0))
      document_of
      (context false 0 0)
      none
      (codes "example.com")
      (codes "id.example.org")
      (pos 1000)).0
    ≡ untrusted_issuer
unfolding issuer_is_authoritative acquire_authority set_json_timestamp_value
no_delegations = refl
