-- ===== src/Oid/RoundTrip.antt =====
-- What is composed is decomposed: mech_browserid/util_oid.c and the encryption types of util_mech.c.
use libbrowserid.Prelude.{
  ℕ, zero, suc, ◌+◌, ◌*◌, ◌/◌, ◌%◌, ◌^◌, ◌≤◌, ◌<◌, ◌≡◌, refl, ap, ◌∙◌, Bool, true, false, ◌&&◌,
  List, [], ◌∷◌, ◌++◌, length, Option, none, some, ltb, leb, ◌==◌, Bool-cases, ◌⊎◌, inl, inr,
  length-append, arith, if◌then◌else◌,
}
use libbrowserid.Prelude.Int.{ℤ, pos, negsuc, above, below}
use libbrowserid.Gss.{complete, failure}
use libbrowserid.Oid.{
  is_some, suffixed, is_last, composed, one_more, count_octets, write_octets, max_octets,
  compose_oid, behind_prefix, read_octets, decomposed, decompose_oid, mechanism,
  is_concrete_mechanism_oid, oid_to_enctype, enctype_to_oid,
}

-- The number of groups of seven bits.
unfoldable pub octet_count : ℕ → ℕ → ℕ
octet_count zero suffix = 0
octet_count (suc rounds) suffix =
    let rest = octet_count rounds (suffix / 2 ^ 7) in if suffix == 0 then 0 else rest + 1

behind_prefix-append :
    (prefix octets : List ℕ) → behind_prefix prefix (prefix ++ octets) ≡ some octets
unfolding behind_prefix
behind_prefix-append [] octets = refl
behind_prefix-append (p ∷ prefix) octets =
    let ih = behind_prefix-append prefix octets in ground (arith, ih)

-- One octet is read.
read_octets-octet :
    (s : ℕ) (octets : List ℕ)
    → s < 2 ^ 31
    → read_octets (s / 2 ^ 7) ((s % 2 ^ 7 + (if is_last octets then 0 else 128)) ∷ octets)
      ≡ read_octets s octets
unfolding read_octets
read_octets-octet s [] l =
    let small : leb (2 ^ 24) (s / 2 ^ 7) ≡ false = ground arith in
    rw small (ap (λ x. read_octets x []) (omega arith))
read_octets-octet s (c ∷ octets) l =
    let small : leb (2 ^ 24) (s / 2 ^ 7) ≡ false = ground arith in
    let marked : ltb (s % 2 ^ 7 + 128) 128 ≡ false = ground arith in
    rw (small, marked) (ap (λ x. read_octets x (c ∷ octets)) (omega arith))

abbrev bound : ℕ → ℕ
bound zero = 1
bound (suc rounds) = bound rounds * 2 ^ 7

read-write_octets :
    (rounds s : ℕ) (octets : List ℕ)
    → s < 2 ^ 31
    → s < bound rounds
    → read_octets 0 (write_octets rounds s octets) ≡ read_octets s octets
unfolding write_octets
read-write_octets zero s octets l b = ap (λ x. read_octets x octets) (omega (arith, b))
read-write_octets (suc rounds) s octets l b = elim (Bool-cases (s == 0)) [
  | inl done ↦ rw done (ap (λ x. read_octets x octets) (ground (arith, done)))
  | inr more ↦ rw more (
      read-write_octets rounds (s / 2 ^ 7)
        ((s % 2 ^ 7 + (if is_last octets then 0 else 128)) ∷ octets) (omega arith) (omega arith)
      ∙ read_octets-octet s octets l)
]

length-write_octets :
    (rounds s : ℕ) (octets : List ℕ)
    → length (write_octets rounds s octets) ≡ octet_count rounds s + length octets
unfolding write_octets octet_count
length-write_octets zero s octets = omega arith
length-write_octets (suc rounds) s octets = elim (Bool-cases (s == 0)) [
  | inl done ↦ rw done (omega arith)
  | inr more ↦ rw more (
      omega (
        arith,
        length-write_octets rounds (s / 2 ^ 7)
            ((s % 2 ^ 7 + (if is_last octets then 0 else 128)) ∷ octets),
      ))
]

octet_count-few : (rounds s : ℕ) → octet_count rounds s ≤ rounds
unfolding octet_count
octet_count-few zero s = omega arith
octet_count-few (suc rounds) s = let ih = octet_count-few rounds (s / 2 ^ 7) in ground (arith, ih)

-- The loop counts the octets of what is not negative.
count_octets-pos :
    (rounds s : ℕ)
    → s < bound rounds
    → count_octets (suc rounds) (pos s) ≡ some (octet_count rounds s)
unfolding count_octets octet_count
count_octets-pos zero s l = let e : (s == 0) ≡ true = ground (arith, l) in rw e refl
count_octets-pos (suc rounds) s l = elim (Bool-cases (s == 0)) [
  | inl done ↦ rw done refl
  | inr more ↦
      let ih = count_octets-pos rounds (s / 2 ^ 7) (omega (arith, l)) in rw more (ap one_more ih)
]

-- A negative suffix is shifted for ever.
count_octets-negsuc : (rounds n : ℕ) → count_octets rounds (negsuc n) ≡ none
unfolding count_octets
count_octets-negsuc zero n = refl
count_octets-negsuc (suc rounds) n = ap one_more (count_octets-negsuc rounds (n / 2 ^ 7))

-- An identifier is composed where there is room for its octets, and else refused; a suffix of 31
-- bits, not negative, has at most five of them. What `composeOid` makes of a prefix and a suffix,
-- `decomposeOid` takes apart into the same suffix.
pub decompose-compose_oid :
    (prefix : List ℕ) (suffix room : ℕ)
    → suffix < 2 ^ 31
    → ((room < length prefix + octet_count max_octets suffix)
        × (compose_oid prefix (pos suffix) room ≡ some (failure, [])))
      ⊎ ((oid : List ℕ) × (compose_oid prefix (pos suffix) room ≡ some (complete, oid))
          × (length oid ≡ length prefix + octet_count max_octets suffix)
          × (length oid ≤ length prefix + max_octets)
          × (length oid ≤ room)
          × (decompose_oid prefix oid ≡ suffixed suffix))
unfolding compose_oid decompose_oid
decompose-compose_oid prefix suffix room l = elim (Bool-cases (ltb room (length prefix))) [
  | inl tiny ↦ inl (ground (arith, tiny), rw tiny refl)
  | inr some_room ↦ elim (Bool-cases (ltb room (length prefix + octet_count max_octets suffix))) [
    | inl small ↦ inl (
      ground (arith, small),
      rw some_room (ap (composed prefix suffix room) count ∙ rw small refl),
    )
    | inr fits ↦
        let size = length-write_octets max_octets suffix [] in
        let few = octet_count-few max_octets suffix in
        let sum = length-append prefix (write_octets max_octets suffix []) in
        inr (
          prefix ++ write_octets max_octets suffix [],
          rw some_room (ap (composed prefix suffix room) count ∙ rw fits refl),
          omega (arith, size, sum),
          omega (arith, size, sum, few),
          ground (arith, size, sum, fits),
          ap decomposed (behind_prefix-append prefix (write_octets max_octets suffix []))
              ∙ read-write_octets max_octets suffix [] l (omega arith),
        )
  ]
]
  where
    count : count_octets (suc max_octets) (pos suffix) ≡ some (octet_count max_octets suffix)
    count = count_octets-pos max_octets suffix (omega (arith, l))

decomposed-some : (r : Option (List ℕ)) (s : ℕ) → decomposed r ≡ suffixed s → is_some r ≡ true
decomposed-some none s h = absurd cc
decomposed-some (some octets) s h = refl

one_octet : (s : ℕ) → s < 128 → octet_count max_octets s ≤ 1
unfolding octet_count
one_octet s l = elim (Bool-cases (s == 0)) [
  | inl done ↦ rw done (omega arith)
  | inr more ↦ let rest : s / 2 ^ 7 ≡ 0 = omega arith in rw (more, rest) (omega arith)
]

-- One octet has seven bits.
fewer : (s : ℕ) → octet_count max_octets s ≤ 1 → s < 128
unfolding octet_count
fewer s l = elim (Bool-cases (s == 0)) [
  | inl done ↦ ground (arith, done)
  | inr more ↦ elim (Bool-cases (s / 2 ^ 7 == 0)) [
    | inl last ↦ ground (arith, last)
    | inr longer ↦ absurd (omega (arith, rw (more, longer) at l))
  ]
]

ltb-octets : (s : ℕ) → ltb 9 (9 + octet_count max_octets s) ≡ ltb 0 s
unfolding octet_count
ltb-octets s = elim (Bool-cases (s == 0)) [
  | inl done ↦ rw done (ground (arith, done))
  | inr more ↦ rw more (ground (arith, more))
]

abbrev room : ℕ
room = length mechanism + 1

concrete :
    (s : ℕ) (oid : List ℕ)
    → length oid ≡ length mechanism + octet_count max_octets s
    → decompose_oid mechanism oid ≡ suffixed s
    → is_concrete_mechanism_oid oid ≡ ltb 0 s
unfolding is_concrete_mechanism_oid decompose_oid
concrete s oid size read =
    rw (size, decomposed-some (behind_prefix mechanism oid) s read)
      (ap (λ b. b && true) (ltb-octets s) ∙ and_true (ltb 0 s))
  where
    and_true : (b : Bool) → (b && true) ≡ b
    and_true true = refl
    and_true false = refl

-- For a negative encryption type, which `krb5_enctype` has, `gssBidEnctypeToOid` does not return: no
-- number of rounds ends the loop of `composeOid`. A type that does not fit into seven bits is
-- refused. Of the others, `gssBidOidToEnctype` reads the type back from the mechanism that is made,
-- which is concrete unless the type is 0, ENCTYPE_NULL.
pub oid_to_enctype-enctype_to_oid :
    (enctype : ℤ)
    → above enctype < 2 ^ 31
    → ((0 < below enctype)
        × ((rounds : ℕ) → count_octets rounds enctype ≡ none)
        × (enctype_to_oid enctype ≡ none))
      ⊎ (((128 ≤ above enctype) × (enctype_to_oid enctype ≡ some (failure, [])))
          ⊎ ((below enctype ≡ 0)
              × (above enctype < 128)
              × (oid : List ℕ) × (enctype_to_oid enctype ≡ some (complete, oid))
              × (oid_to_enctype oid ≡ suffixed (above enctype))
              × (is_concrete_mechanism_oid oid ≡ ltb 0 (above enctype))))
unfolding enctype_to_oid oid_to_enctype compose_oid
oid_to_enctype-enctype_to_oid (negsuc n) l = inl (
  omega arith,
  (λ rounds. count_octets-negsuc rounds n),
  ap (composed mechanism 0 room) (count_octets-negsuc (suc max_octets) n),
)
oid_to_enctype-enctype_to_oid (pos enctype) l =
    inr (elim (decompose-compose_oid mechanism enctype room l) [
      | inl (small, refused) ↦
          inl (large (λ few. omega (arith, one_octet enctype few, small)), refused)
      | inr (oid, made, size, few, fits, read) ↦ inr (
        refl,
        fewer enctype (omega (arith, size, fits)),
        oid,
        made,
        read,
        concrete enctype oid size read,
      )
    ])
  where
    large : ¬ (enctype < 128) → 128 ≤ enctype
    large h = omega (arith, h)
