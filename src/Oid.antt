-- ===== src/Oid.antt =====
-- mech_browserid/util_oid.c: object identifiers made of a prefix and an integer, and util_mech.c: the
-- mechanisms, whose last arc is an encryption type of Kerberos.
pub mod RoundTrip
mod Tests
use libbrowserid.Prelude.{
  ℕ, zero, suc, ◌+◌, ◌*◌, ◌/◌, ◌%◌, ◌^◌, Bool, true, false, not, ◌&&◌, ◌||◌, List, [], ◌∷◌, ◌++◌,
  length, Option, none, some, ltb, leb, ◌==◌, if◌then◌else◌,
}
use libbrowserid.Prelude.Int.{ℤ, pos, negsuc, above}
use libbrowserid.Gss.{Major, complete, failure, bad_mech}
use libbrowserid.Spn.{str_eq}

-- How `decomposeOid` ends: with its status and suffix, or where a shift is not defined in C.
pub data Decomposed : Type 0 where
  suffixed : ℕ → Decomposed
  refused : Major → Decomposed
  overflowed : Decomposed

abbrev pub is_last : List ℕ → Bool
is_last [] = true
is_last (_ ∷ _) = false

-- `>>=` of an `int` by 7; of a negative one it is the arithmetic shift of the compilers, which keeps the
-- sign.
abbrev pub shift_right : ℤ → ℤ
shift_right (pos n) = pos (n / 2 ^ 7)
shift_right (negsuc n) = negsuc (n / 2 ^ 7)

abbrev pub is_zero : ℤ → Bool
is_zero (pos n) = n == 0
is_zero (negsuc n) = false

abbrev pub one_more : Option ℕ → Option ℕ
one_more none = none
one_more (some n) = some (n + 1)

-- The loop that counts the octets of a suffix, as far as the rounds go; `none` is a loop that has not
-- come to its end.
unfoldable pub count_octets : ℕ → ℤ → Option ℕ
count_octets zero suffix = none
count_octets (suc rounds) suffix =
    let rest = one_more (count_octets rounds (shift_right suffix)) in
    if is_zero suffix then some 0 else rest

-- The loop that writes them from the last one on, behind which `octets` are written.
unfoldable pub write_octets : ℕ → ℕ → List ℕ → List ℕ
write_octets zero suffix octets = octets
write_octets (suc rounds) suffix octets =
    let rest =
      write_octets rounds (suffix / 2 ^ 7)
        ((suffix % 2 ^ 7 + (if is_last octets then 0 else 128)) ∷ octets) in
    if suffix == 0 then octets else rest

-- An `int` that is not negative has at most five groups of seven bits.
abbrev pub max_octets : ℕ
max_octets = 5

abbrev pub composed : List ℕ → ℕ → ℕ → Option ℕ → Option (Major × List ℕ)
composed prefix suffix room none = none
composed prefix suffix room (some octets) =
    if ltb room (length prefix + octets)
    then some (failure, [])
    else some (complete, prefix ++ write_octets max_octets suffix [])

-- `composeOid` of a suffix, with room for `room` octets. Its loops go on for ever with a negative
-- suffix, the result `none`: one round more than an `int` has groups of seven bits is enough for any
-- other.
unfoldable pub compose_oid : List ℕ → ℤ → ℕ → Option (Major × List ℕ)
unfolding count_octets write_octets
compose_oid prefix suffix room =
    if ltb room (length prefix)
    then some (failure, [])
    else composed prefix (above suffix) room (count_octets (suc max_octets) suffix)

-- `memcmp` of the prefix, and the octets behind it.
unfoldable pub behind_prefix : List ℕ → List ℕ → Option (List ℕ)
behind_prefix [] octets = some octets
behind_prefix (p ∷ prefix) [] = none
behind_prefix (p ∷ prefix) (c ∷ octets) =
    let rest = behind_prefix prefix octets in if p == c then rest else none

-- The loop over the octets of the suffix, of which `suffix` has been read. The shift to the left is
-- not defined where its value is no `int`.
unfoldable pub read_octets : ℕ → List ℕ → Decomposed
read_octets suffix [] = suffixed suffix
read_octets suffix (c ∷ octets) =
    let rest = read_octets (suffix * 2 ^ 7 + c % 2 ^ 7) octets in
    if leb (2 ^ 24) suffix
    then overflowed
    else if not (is_last octets) && ltb c 128
    then refused failure
    else rest

abbrev pub decomposed : Option (List ℕ) → Decomposed
decomposed none = refused bad_mech
decomposed (some octets) = read_octets 0 octets

-- `decomposeOid`
unfoldable pub decompose_oid : List ℕ → List ℕ → Decomposed
unfolding behind_prefix read_octets
decompose_oid prefix oid = decomposed (behind_prefix prefix oid)

-- GSS_BROWSERID_MECHANISM and GSS_BROWSERID_NULL_MECHANISM
abbrev pub mechanism : List ℕ
mechanism = 43 ∷ 6 ∷ 1 ∷ 4 ∷ 1 ∷ 169 ∷ 74 ∷ 24 ∷ 1 ∷ []

abbrev pub null_mechanism : List ℕ
null_mechanism = mechanism ++ (0 ∷ [])

abbrev pub is_some : Option (List ℕ) → Bool
is_some none = false
is_some (some _) = true

-- `gssBidIsConcreteMechanismOid`
unfoldable pub is_concrete_mechanism_oid : List ℕ → Bool
unfolding behind_prefix
is_concrete_mechanism_oid oid =
    ltb (length mechanism) (length oid) && is_some (behind_prefix mechanism oid)

-- `gssBidIsMechanismOid`, of an identifier or GSS_C_NO_OID.
unfoldable pub is_mechanism_oid : Option (List ℕ) → Bool
unfolding is_concrete_mechanism_oid
is_mechanism_oid none = true
is_mechanism_oid (some oid) = str_eq oid mechanism || is_concrete_mechanism_oid oid

-- `gssBidValidateMechs`, of a set or GSS_C_NO_OID_SET.
unfoldable pub validate_mechs : List (List ℕ) → Major
unfolding is_concrete_mechanism_oid
validate_mechs [] = complete
validate_mechs (oid ∷ mechs) =
    let rest = validate_mechs mechs in if is_concrete_mechanism_oid oid then rest else bad_mech

-- `gssBidOidToEnctype`
unfoldable pub oid_to_enctype : List ℕ → Decomposed
unfolding decompose_oid
oid_to_enctype oid = decompose_oid mechanism oid

-- `gssBidEnctypeToOid` of a `krb5_enctype`, with room for one octet.
unfoldable pub enctype_to_oid : ℤ → Option (Major × List ℕ)
unfolding compose_oid
enctype_to_oid enctype = compose_oid mechanism enctype (length mechanism + 1)
