-- ===== src/Oid/Tests.antt =====
-- Runs of the identifiers of mechanisms.
use libbrowserid.Prelude.{
  ℕ, ◌+◌, ◌<◌, ◌≤◌, ◌≡◌, ◌⊎◌, refl, true, false, List, [], ◌∷◌, none, ◌++◌, length, some, ltb,
  arith,
}
use libbrowserid.Prelude.Int.{pos, negsuc, below}
use libbrowserid.Gss.{complete, failure, bad_mech}
use libbrowserid.Oid.{
  suffixed, refused, overflowed, count_octets, max_octets, compose_oid, decompose_oid, mechanism,
  null_mechanism, is_concrete_mechanism_oid, is_mechanism_oid, validate_mechs, oid_to_enctype,
  enctype_to_oid,
}
use libbrowserid.Oid.RoundTrip.{octet_count, decompose-compose_oid, oid_to_enctype-enctype_to_oid}

-- The second mechanism of `gssBidMechOids` is not what is composed of ENCTYPE_NULL.
null_type :
    (enctype_to_oid (pos 0) ≡ some (complete, mechanism))
    × (oid_to_enctype null_mechanism ≡ suffixed 0)
    × (is_concrete_mechanism_oid mechanism ≡ false)
    × (is_concrete_mechanism_oid null_mechanism ≡ true)
unfolding enctype_to_oid oid_to_enctype is_concrete_mechanism_oid
null_type = (refl, refl, refl, refl)

mechanisms :
    (enctype_to_oid (pos 17) ≡ some (complete, mechanism ++ (17 ∷ [])))
    × (enctype_to_oid (pos 128) ≡ some (failure, []))
    × (enctype_to_oid (negsuc 0) ≡ none)
    × (is_mechanism_oid (some mechanism) ≡ true)
    × (is_mechanism_oid (some (42 ∷ [])) ≡ false)
    × (validate_mechs (null_mechanism ∷ mechanism ∷ []) ≡ bad_mech)
unfolding enctype_to_oid is_mechanism_oid validate_mechs
mechanisms = (refl, refl, refl, refl, refl, refl)

takes_apart :
    (decompose_oid (42 ∷ []) (42 ∷ 130 ∷ 44 ∷ []) ≡ suffixed 300)
    × (decompose_oid (42 ∷ []) (42 ∷ 2 ∷ 44 ∷ []) ≡ refused failure)
    × (decompose_oid (42 ∷ []) (43 ∷ 2 ∷ []) ≡ refused bad_mech)
    × (decompose_oid (42 ∷ []) (42 ∷ 143 ∷ 255 ∷ 255 ∷ 255 ∷ 127 ∷ []) ≡ overflowed)
unfolding decompose_oid
takes_apart = (refl, refl, refl, refl)

decompose-compose_oid_example :
    ((3 < 1 + octet_count max_octets 300)
      × (compose_oid (42 ∷ []) (pos 300) 3 ≡ some (failure, [])))
    ⊎ ((oid : List ℕ) × (compose_oid (42 ∷ []) (pos 300) 3 ≡ some (complete, oid))
        × (length oid ≡ 1 + octet_count max_octets 300)
        × (length oid ≤ 1 + max_octets)
        × (length oid ≤ 3)
        × (decompose_oid (42 ∷ []) oid ≡ suffixed 300))
decompose-compose_oid_example = decompose-compose_oid (42 ∷ []) 300 3 (omega arith)

oid_to_enctype-enctype_to_oid_example :
    ((0 < 0)
      × ((rounds : ℕ) → count_octets rounds (pos 18) ≡ none)
      × (enctype_to_oid (pos 18) ≡ none))
    ⊎ (((128 ≤ 18) × (enctype_to_oid (pos 18) ≡ some (failure, [])))
        ⊎ ((below (pos 18) ≡ 0)
            × (18 < 128)
            × (oid : List ℕ) × (enctype_to_oid (pos 18) ≡ some (complete, oid))
            × (oid_to_enctype oid ≡ suffixed 18)
            × (is_concrete_mechanism_oid oid ≡ ltb 0 18)))
oid_to_enctype-enctype_to_oid_example = oid_to_enctype-enctype_to_oid (pos 18) (omega arith)
