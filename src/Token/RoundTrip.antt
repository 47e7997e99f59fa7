-- ===== src/Token/RoundTrip.antt =====
-- `verifyTokenHeader` reads back the header that `makeTokenHeader` wrote.
use libbrowserid.Prelude.{
  ℕ, ◌+◌, ◌-◌, ◌%◌, ◌^◌, ◌≤◌, ◌<◌, ◌≡◌, ◌≢◌, ◌⊎◌, inl, inr, ◌==◌, Bool, Bool-cases, refl, ap, ◌∙◌,
  true, false, List, [], ◌∷◌, ◌++◌, Option, none, some, length, length-append, append_assoc, arith,
}
use libbrowserid.Status.{some-injective}
use native.Mathlib.Nat.{mod-eq_of_lt}
use libbrowserid.Token.{
  Oid, done, Cursor, spend, expect, take_bytes, read_seqsize, read_oid, read_mech, verify_type,
  der_write_length, token_type, add_size, token_size, header_bytes, type_none, make_token_header,
  verify_token_header,
}
use libbrowserid.Token.Der.{der_read_length-write, length-der_write_length}

abbrev pub oid_length : Option Oid → ℕ
oid_length none = 0
oid_length (some m) = length m

-- A cursor.
abbrev pub at : List ℕ → ℕ → Cursor
at bs n = record { buf = bs; left = n }

spend_lem :
    (n : ℕ) (o : Option Oid) (bs : List ℕ) (left : ℕ)
    → n ≤ left
    → spend n o (at bs left) ≡ done (at bs (left - n))
unfolding spend
spend_lem n o bs left h = ground arith

expect_lem : (b : ℕ) (bs : List ℕ) (left : ℕ) → expect b (at (b ∷ bs) left) ≡ done (at bs left)
unfolding expect
expect_lem b bs left = ground arith

take_bytes-append :
    (xs rest : List ℕ) (left : ℕ)
    → take_bytes (length xs) (xs ++ rest) left ≡ done (xs, at rest left)
unfolding take_bytes
take_bytes-append [] rest left = refl
take_bytes-append (x ∷ xs) rest left = rw (take_bytes-append xs rest left)

read_seqsize-write :
    (n : ℕ) (rest : List ℕ)
    → n < 2 ^ 31
    → 0 < n
    → read_seqsize (at (der_write_length n ++ rest) (length (der_write_length n) + n))
      ≡ done (at rest n)
unfolding read_seqsize
read_seqsize-write n rest h p =
    rw (der_read_length-write n rest (length (der_write_length n) + n) h (omega arith))
      (ground arith)

read_oid-append :
    (m rest : List ℕ) (left : ℕ)
    → 0 < length m
    → read_oid (at (0x06 ∷ length m ∷ (m ++ rest)) (length m + left + 2)) ≡ done (m, at rest left)
unfolding read_oid
read_oid-append m rest left h = ground (arith, take_bytes-append m rest left)

read_mech-make :
    (m rest : List ℕ) (n : ℕ)
    → 0 < length m
    → length m + n + 2 < 2 ^ 31
    → read_mech (
        at
          (0x60 ∷ (der_write_length (length m + n + 2) ++ (0x06 ∷ length m ∷ (m ++ rest))))
          (1 + length (der_write_length (length m + n + 2)) + (length m + n + 2)))
      ≡ done (m, at rest n)
unfolding read_mech
read_mech-make m rest n h fits = ground (
  arith,
  read_seqsize-write (length m + n + 2) (0x06 ∷ length m ∷ (m ++ rest)),
  read_oid-append m rest n h,
)

-- The size of a header with an OID: the tag, the length, and the sequence's contents before the
-- body.
contents_eq :
    (m : List ℕ) (b : ℕ)
    → length m + b + 4 < 2 ^ 31
    → ((4 + length m) % 2 ^ 32 + b) % 2 ^ 64 ≡ length m + (b + 2) + 2
contents_eq m b h = omega arith

module _ (m : List ℕ) (t : ℕ) where
  -- The header as a list that a reader meets, with what follows it.
  header_bytes-append :
      (b : ℕ) (rest : List ℕ)
      → length m < 256
      → length m + b + 4 < 2 ^ 31
      → header_bytes (some m) b t ++ rest
        ≡ 0x60
          ∷ (der_write_length (length m + (b + 2) + 2)
              ++ (0x06 ∷ length m ∷ (m ++ (token_type t ++ rest))))
  unfolding header_bytes
  header_bytes-append b rest small fits =
      rw (contents_eq m b fits, mod-eq_of_lt small) (simp append_assoc)

token_size-some :
    (m : Oid) (b : ℕ)
    → length m + b + 4 < 2 ^ 31
    → token_size (some m) b
      ≡ length m + (b + 2) + 2 + (1 + length (der_write_length (length m + (b + 2) + 2)))
unfolding token_size
token_size-some m b fits =
    let e : add_size (add_size b 2) (add_size 2 (length m)) ≡ length m + (b + 2) + 2 =
      omega arith in
    rw (e, length-der_write_length (length m + (b + 2) + 2) (omega arith)) (ground arith)

-- The size of a header and a body.
token_size-header_bytes :
    (o : Option Oid) (b t : ℕ)
    → oid_length o < 256
    → oid_length o + b + 4 < 2 ^ 31
    → token_size o b ≡ length (header_bytes o b t) + b
token_size-header_bytes none b t small fits = unfold token_size header_bytes in omega arith
token_size-header_bytes (some m) b t small fits =
    let w : List ℕ = der_write_length (length m + (b + 2) + 2) in
    omega (
      arith,
      token_size-some m b fits,
      ap length (header_bytes-append m t b [] small fits),
      length-append (header_bytes (some m) b t) [],
      length-append w (0x06 ∷ length m ∷ (m ++ (token_type t ++ []))),
      length-append m (token_type t ++ []),
    )

-- `tokenSize` is the number of bytes that the header which `makeTokenHeader` writes and the body
-- take, so the buffer that is allocated by it is filled exactly. It holds for an OID of fewer than 256
-- bytes (or none), where the OID, the body and four bytes more are fewer than 2^31.
pub token_size-make :
    (o : Option Oid) (b t : ℕ) (header : List ℕ)
    → oid_length o < 256
    → oid_length o + b + 4 < 2 ^ 31
    → make_token_header o b t ≡ some header
    → token_size o b ≡ length header + b
unfolding make_token_header
token_size-make o b t header small fits h = elim (Bool-cases (t == type_none)) [
  | inl absent ↦ absurd (let q : none ≡ some header = rw absent at h in cc)
  | inr present ↦
      let same : header_bytes o b t ≡ header = some-injective (rw present at h) in
      token_size-header_bytes o b t small fits ∙ ap (λ x. length x + b) same
]

read_type_lem :
    (o : Option Oid) (body : List ℕ) (t : ℕ)
    → t < 2 ^ 16
    → verify_type true o (at (token_type t ++ body) (length body + 2))
      ≡ done (record { mech = o; tok_type = some t; body = at body (length body) })
unfolding verify_type
read_type_lem o body t h = ground arith

-- The header with an OID is read back.
verify_header_bytes :
    (m : Oid) (body : List ℕ) (t : ℕ)
    → 0 < length m
    → length m < 256
    → length m + length body + 4 < 2 ^ 31
    → t < 2 ^ 16
    → verify_token_header true true
        (header_bytes (some m) (length body) t ++ body)
        (token_size (some m) (length body))
      ≡ done (record { mech = some m; tok_type = some t; body = at body (length body) })
unfolding verify_token_header
verify_header_bytes m body t nonempty small fits type =
    let n : ℕ = length body in
    let w : List ℕ = der_write_length (length m + (n + 2) + 2) in
    let size : token_size (some m) n ≡ 1 + length w + (length m + (n + 2) + 2) =
      omega (arith, token_size-some m n fits) in
    rw (header_bytes-append m t n body small fits, size)
      (rw (read_mech-make m (token_type t ++ body) (n + 2) nonempty (omega arith))
        (read_type_lem (some m) body t type))

-- Without an OID (as in the mechanism's later tokens), `verifyTokenHeader` gives back the token type
-- and the body that were framed by `makeTokenHeader` and `tokenSize`, for a type of 16 bits and any
-- body that with the type a signed size can count.
verify_header_bytes-none :
    (body : List ℕ) (t : ℕ)
    → length body + 2 < 2 ^ 63
    → t < 2 ^ 16
    → verify_token_header false true
        (header_bytes none (length body) t ++ body)
        (token_size none (length body))
      ≡ done (record { mech = none; tok_type = some t; body = at body (length body) })
unfolding verify_token_header header_bytes token_size
verify_header_bytes-none body t fits type =
    let size : add_size (length body) 2 ≡ length body + 2 = omega arith in
    rw size (read_type_lem none body t type)

-- An OID that a token may begin with, and the body of the token behind it.
abbrev pub Fits : Option Oid → ℕ → Type 0
Fits none n = n + 2 < 2 ^ 63
Fits (some m) n = (0 < length m) × (length m < 256) × (length m + n + 4 < 2 ^ 31)

abbrev pub is_given : Option Oid → Bool
is_given none = false
is_given (some m) = true

-- `makeTokenHeader` writes a header for every token type but TOK_TYPE_NONE, where its assertion
-- fails. With the body behind it, `verifyTokenHeader`, given the size that `tokenSize` says,
-- returns the OID, the token type and the whole body, also without an OID, as in the mechanism's
-- later tokens. The type has 16 bits; an OID has 1 to 255 bytes, and with the body and four bytes
-- more fewer than 2^31; without one, the body and the type have a size that is signed.
pub verify_token_header-make :
    (mech : Option Oid) (body : List ℕ) (t : ℕ)
    → Fits mech (length body)
    → t < 2 ^ 16
    → ((t ≡ type_none) × (make_token_header mech (length body) t ≡ none))
      ⊎ ((t ≢ type_none)
          × (header : List ℕ) × (make_token_header mech (length body) t ≡ some header)
          × (verify_token_header
                (is_given mech)
                true
                (header ++ body)
                (token_size mech (length body))
              ≡ done (record { mech = mech; tok_type = some t; body = at body (length body) })))
unfolding make_token_header
verify_token_header-make mech body t fits type = elim (Bool-cases (t == type_none)) [
  | inl absent ↦ inl (ground (arith, absent), rw absent refl)
  | inr present ↦ inr (
    ground (arith, present),
    header_bytes mech (length body) t,
    rw present refl,
    by_oid mech fits,
  )
]
  where
    by_oid :
        (o : Option Oid)
        → Fits o (length body)
        → verify_token_header
            (is_given o)
            true
            (header_bytes o (length body) t ++ body)
            (token_size o (length body))
          ≡ done (record { mech = o; tok_type = some t; body = at body (length body) })
    by_oid none f = verify_header_bytes-none body t f type
    by_oid (some m) (nonempty, small, f) = verify_header_bytes m body t nonempty small f type
