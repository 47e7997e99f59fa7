-- ===== src/Token.antt =====
-- mech_browserid/util_token.c: the framing of GSS tokens. A buffer is the list of the bytes from
-- the pointer on; writing returns the bytes written, and reading past the list is a fault.
pub mod Bounds
pub mod Der
pub mod RoundTrip
mod Tests
use libbrowserid.Prelude.{
  ℕ, zero, suc, ◌+◌, ◌-◌, ◌*◌, ◌/◌, ◌%◌, ◌^◌, Bool, true, false, List, [], ◌∷◌, ◌++◌, Option, none,
  some, ltb, leb, ◌==◌, if◌then◌else◌, length,
}
use libbrowserid.Gss.{Major, defective_token, bad_mech}

abbrev pub Oid : Type 0
Oid = List ℕ

-- How a read ends: with a value, with a failure that `verifyTokenHeader` returns (beside the OID
-- that it has stored through `mech` by then), or with an access outside the buffer.
pub data Read {ℓ} (A : Type ℓ) : Type ℓ where
  done : A → Read A
  failed : Major → Option Oid → Read A
  fault : Read A

infixl 5 ◌>>=◌
abbrev pub ◌>>=◌ {ℓ κ} : {A : Type ℓ} {B : Type κ} → Read A → (A → Read B) → Read B
done a >>= f = f a
failed m o >>= f = failed m o
fault >>= f = fault

-- The pointer that moves through the token, and `toksize`, the bytes of the token still unread.
-- `toksize` is a signed size, so a token has fewer than 2^63 bytes.
pub record Cursor : Type 0 where
  pub buf : List ℕ
  pub left : ℕ

-- `der_length_size`, with 32-bit `int`.
pub der_length_size : ℕ → ℕ
der_length_size n =
    if ltb n (2 ^ 7)
    then 1
    else if ltb n (2 ^ 8)
    then 2
    else if ltb n (2 ^ 16)
    then 3
    else if ltb n (2 ^ 24)
    then 4
    else 5

-- One byte of a long length, written if the length has it.
abbrev octet_if : ℕ → ℕ → List ℕ
octet_if n shift = if leb (2 ^ shift) n then (n / 2 ^ shift % 256) ∷ [] else []

-- `der_write_length`
pub der_write_length : ℕ → List ℕ
unfolding der_length_size
der_write_length n =
    if ltb n (2 ^ 7)
    then n ∷ []
    else ((der_length_size n + 127) % 256)
      ∷ (octet_if n 24 ++ (octet_if n 16 ++ (octet_if n 8 ++ (n % 256) ∷ [])))

-- `*buf++`
pub next_byte : List ℕ → ℕ → Read (ℕ × Cursor)
next_byte [] n = fault
next_byte (b ∷ bs) n = done (b, record { buf = bs; left = n })

-- `if ((toksize -= n) < 0) return GSS_S_DEFECTIVE_TOKEN`
pub spend : ℕ → Option Oid → Cursor → Read Cursor
spend n o c =
    if ltb c.left n then failed defective_token o else done (record c { left = c.left - n })

-- `for (; sf; sf--) { ret = (ret<<8) + (*(*buf)++); (*bufsize)--; }` in a 32-bit `int`, as its bit
-- pattern.
pub der_loop : ℕ → ℕ → Cursor → Read (ℕ × Cursor)
der_loop zero ret c = done (ret, c)
der_loop (suc sf) ret c = do
  (b, c') ← next_byte c.buf c.left
  der_loop sf ((ret * 256 + b) % 2 ^ 32) (record c' { left = c'.left - 1 })

-- The sign of an `int`: a negative one is `none`.
abbrev pub nonneg : ℕ × Cursor → Option (ℕ × Cursor)
nonneg (n, c) = if ltb n (2 ^ 31) then some (n, c) else none

-- The long form: `sf` is what the first byte says of the bytes that follow. The comparison
-- `sf > (*bufsize)-1` is signed.
pub der_read_long : ℕ → Cursor → Read (Option (ℕ × Cursor))
unfolding der_loop
der_read_long sf c =
    if leb c.left sf
    then done none
    else if ltb 4 sf
    then done none
    else (do r ← der_loop sf 0 c; done (nonneg r))

-- `der_read_length`; `none` is a negative result.
pub der_read_length : Cursor → Read (Option (ℕ × Cursor))
unfolding next_byte der_read_long
der_read_length c = if ltb c.left 1 then done none else (do
  (sf, c1) ← next_byte c.buf (c.left - 1)
  if leb 128 sf then der_read_long (sf - 128) c1 else done (some (sf, c1)))

-- `size_t` addition.
abbrev pub add_size : ℕ → ℕ → ℕ
add_size a b = (a + b) % 2 ^ 64

-- `tokenSize`
pub token_size : Option Oid → ℕ → ℕ
unfolding der_length_size
token_size none body = add_size body 2
token_size (some mech) body =
    let contents = add_size (add_size body 2) (add_size 2 (length mech)) in
    add_size contents (add_size 1 (der_length_size contents))

abbrev token_type : ℕ → List ℕ
token_type t = (t / 256 % 256) ∷ (t % 256) ∷ []

-- What `makeTokenHeader` writes; `4 + mech->length` is an addition of `OM_uint32`.
pub header_bytes : Option Oid → ℕ → ℕ → List ℕ
unfolding der_write_length
header_bytes none body t = token_type t
header_bytes (some mech) body t =
    0x60
    ∷ (der_write_length (add_size ((4 + length mech) % 2 ^ 32) body)
        ++ (0x06 ∷ (length mech % 256) ∷ (mech ++ token_type t)))

-- TOK_TYPE_NONE
abbrev pub type_none : ℕ
type_none = 0

-- `makeTokenHeader`; `none` is its failed assertion.
pub make_token_header : Option Oid → ℕ → ℕ → Option (List ℕ)
unfolding header_bytes
make_token_header mech body t = if t == type_none then none else some (header_bytes mech body t)

-- A byte that has to be there: `if (*buf++ != b) return GSS_S_DEFECTIVE_TOKEN`.
pub expect : ℕ → Cursor → Read Cursor
unfolding next_byte
expect b c = do
  (x, c') ← next_byte c.buf c.left
  if x == b then done c' else failed defective_token none

-- `toid.elements = buf; buf += toid.length`
pub take_bytes : ℕ → List ℕ → ℕ → Read (List ℕ × Cursor)
take_bytes zero bs n = done ([], record { buf = bs; left = n })
take_bytes (suc k) [] n = fault
take_bytes (suc k) (b ∷ bs) n = do (taken, c) ← take_bytes k bs n; done (b ∷ taken, c)

-- `seqsize = der_read_length(…)` and the two tests of it.
pub read_seqsize : Cursor → Read Cursor
unfolding der_read_length
read_seqsize c = do
  r ← der_read_length c
  elim r [
    | none ↦ failed defective_token none
    | some (n, c') ↦ if n == c'.left then done c' else failed defective_token none
  ]

-- The OID behind the sequence's length.
pub read_oid : Cursor → Read (Oid × Cursor)
unfolding next_byte spend expect take_bytes
read_oid c = do
  c1 ← spend 1 none c
  c2 ← expect 0x06 c1
  c3 ← spend 1 none c2
  (n, c4) ← next_byte c3.buf c3.left
  c5 ← spend n none c4
  (oid, c6) ← take_bytes n c5.buf c5.left
  if length oid == 0 then failed bad_mech (some oid) else done (oid, c6)

-- The part of `verifyTokenHeader` under `mech != GSS_C_NO_OID`.
pub read_mech : Cursor → Read (Oid × Cursor)
unfolding spend expect read_seqsize read_oid
read_mech c = do c1 ← spend 1 none c; c2 ← expect 0x60 c1; c3 ← read_seqsize c2; read_oid c3

-- The part under `ret_tok_type != NULL`.
pub read_type : Option Oid → Cursor → Read (ℕ × Cursor)
unfolding spend next_byte
read_type o c = do
  c1 ← spend 2 o c
  (hi, c2) ← next_byte c1.buf c1.left
  (lo, c3) ← next_byte c2.buf c2.left
  done (hi * 256 + lo, c3)

-- What `verifyTokenHeader` stores on success: `body_size` and `buf_in` are the cursor.
pub record Header : Type 0 where
  pub mech : Option Oid
  pub tok_type : Option ℕ
  pub body : Cursor

module _ (want_type : Bool) where
  verify_type : Option Oid → Cursor → Read Header
  unfolding read_type
  verify_type o c =
      if want_type
      then (do (t, c') ← read_type o c; done (record { mech = o; tok_type = some t; body = c' }))
      else done (record { mech = o; tok_type = none; body = c })

-- `verifyTokenHeader`; the flags say whether `mech` and `ret_tok_type` are given, `mech` as the
-- assertion on it asks, without elements. On a failure the
-- caller's `buf_in` and `body_size` are as before, and the minor status is
-- `GSSBID_BAD_TOK_HEADER`.
pub verify_token_header : Bool → Bool → List ℕ → ℕ → Read Header
unfolding read_mech verify_type
verify_token_header want_mech want_type buf toksize =
    let start : Cursor = record { buf = buf; left = toksize } in
    if want_mech
    then (do (oid, c) ← read_mech start; verify_type want_type (some oid) c)
    else verify_type want_type none start
