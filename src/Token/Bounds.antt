-- ===== src/Token/Bounds.antt =====
-- `verifyTokenHeader` reads inside the token, whatever its bytes are.
use libbrowserid.Prelude.{
  ℕ, zero, suc, ◌+◌, ◌-◌, ◌^◌, ◌≤◌, ◌<◌, ◌≡◌, refl, ap, ◌∙◌, Bool, true, false, List, [], ◌∷◌, ◌++◌,
  Option, none, some, ltb, leb, if◌then◌else◌, ◌==◌, length, length-append, append_assoc, arith,
  Bool-cases, inl, inr,
}
use libbrowserid.Gss.{Major, defective_token}
use libbrowserid.Token.{
  Oid, Read, done, failed, ◌>>=◌, Cursor, next_byte, spend, der_loop, der_read_long,
  der_read_length, nonneg, expect, take_bytes, read_seqsize, read_oid, read_mech, read_type, Header,
  verify_type, verify_token_header,
}

-- No fault, and every value has the property.
pub data Safe {ℓ} {A : Type ℓ} (P : A → Type 0) : Read A → Type ℓ where
  safe_done : {a : A} → P a → Safe P (done a)
  safe_failed : {m : Major} {o : Option Oid} → Safe P (failed m o)

Safe-bind {ℓ κ} :
    {A : Type ℓ} {B : Type κ} {P : A → Type 0} {Q : B → Type 0} {m : Read A} (f : A → Read B)
    → Safe P m
    → ((a : A) → P a → Safe Q (f a))
    → Safe Q (m >>= f)
Safe-bind f (safe_done p) k = k _ p
Safe-bind f safe_failed k = safe_failed

Safe-map {ℓ} :
    {A : Type ℓ} {P Q : A → Type 0} {m : Read A} → Safe P m → ((a : A) → P a → Q a) → Safe Q m
Safe-map (safe_done p) k = safe_done (k _ p)
Safe-map safe_failed k = safe_failed

Safe-if {ℓ} :
    {A : Type ℓ} {P : A → Type 0} (b : Bool) {m n : Read A}
    → (b ≡ true → Safe P m)
    → (b ≡ false → Safe P n)
    → Safe P (if b then m else n)
Safe-if true h k = h refl
Safe-if false h k = k refl

-- `c` has moved on from `xs`, and `k` more bytes lie in the buffer than the token is charged with.
abbrev At : List ℕ → ℕ → Cursor → Type 0
At xs k c = (length c.buf ≡ c.left + k) × ((p : List ℕ) × (p ++ c.buf ≡ xs))

module _ (xs : List ℕ) (k : ℕ) where
  next_byte-Safe :
      (bs : List ℕ) (n : ℕ)
      → At xs (suc k) (record { buf = bs; left = n })
      → Safe (λ r. At xs k r.1 × (r.1.left ≡ n)) (next_byte bs n)
  unfolding next_byte
  next_byte-Safe [] n h = absurd (omega arith)
  next_byte-Safe (b ∷ bs) n (l, (p, e)) =
      safe_done ((omega arith, (p ++ (b ∷ []), append_assoc p (b ∷ []) bs ∙ e)), refl)

  spend-Safe :
      (n : ℕ) (o : Option Oid) (c : Cursor) → At xs k c → Safe (At xs (k + n)) (spend n o c)
  unfolding spend
  spend-Safe n o c (l, (p, e)) =
      Safe-if (ltb c.left n) (λ _. safe_failed) (λ enough. safe_done (ground arith, (p, e)))

  expect-Safe : (b : ℕ) (c : Cursor) → At xs (suc k) c → Safe (At xs k) (expect b c)
  unfolding expect
  expect-Safe b c h =
      Safe-bind _ (next_byte-Safe c.buf c.left h)
        (λ r q. Safe-if (r.0 == b) (λ _. safe_done q.0) (λ _. safe_failed))

  take_bytes-Safe :
      (n : ℕ) (bs : List ℕ) (left : ℕ)
      → At xs (k + n) (record { buf = bs; left = left })
      → Safe (λ r. At xs k r.1 × (length r.0 ≡ n)) (take_bytes n bs left)
  unfolding take_bytes
  take_bytes-Safe zero bs left (l, q) = safe_done ((omega arith, q), refl)
  take_bytes-Safe (suc n) [] left (l, q) = absurd (omega arith)
  take_bytes-Safe (suc n) (b ∷ bs) left (l, (p, e)) =
      Safe-bind _
        (take_bytes-Safe n bs left (omega arith, (p ++ (b ∷ []), append_assoc p (b ∷ []) bs ∙ e)))
        (λ r q. safe_done (q.0, ap suc q.1))

  charged_byte-Safe :
      (bs : List ℕ) (n : ℕ)
      → 1 ≤ n
      → At xs k (record { buf = bs; left = n })
      → Safe
          (λ r. At xs k (record { buf = r.1.buf; left = r.1.left - 1 }) × (r.1.left ≡ n))
          (next_byte bs n)
  unfolding next_byte
  charged_byte-Safe [] n h (l, q) = absurd (omega arith)
  charged_byte-Safe (b ∷ bs) n h (l, (p, e)) =
      safe_done ((omega arith, (p ++ (b ∷ []), append_assoc p (b ∷ []) bs ∙ e)), refl)

  -- Each round takes a byte that the token has.
  der_loop-Safe :
      (sf ret : ℕ) (c : Cursor)
      → sf ≤ c.left
      → At xs k c
      → Safe (λ r. At xs k r.1) (der_loop sf ret c)
  unfolding der_loop
  der_loop-Safe zero ret c enough h = safe_done h
  der_loop-Safe (suc sf) ret c enough h =
      Safe-bind _ (charged_byte-Safe c.buf c.left (omega arith) h)
        (λ r q. der_loop-Safe sf _ _ (omega (arith, q.1)) q.0)

  abbrev OptionAt : Option (ℕ × Cursor) → Type 0
  OptionAt none = Unit
  OptionAt (some (n, c)) = At xs k c

  nonneg-OptionAt : (r : ℕ × Cursor) → At xs k r.1 → OptionAt (nonneg r)
  nonneg-OptionAt (n, c) h = elim (Bool-cases (ltb n (2 ^ 31))) [ inl e ↦ rw e h | inr e ↦ rw e tt ]

  der_read_long-Safe : (sf : ℕ) (c : Cursor) → At xs k c → Safe OptionAt (der_read_long sf c)
  unfolding der_read_long
  der_read_long-Safe sf c h =
      Safe-if (leb c.left sf) (λ _. safe_done tt)
        (λ e.
          Safe-if (ltb 4 sf) (λ _. safe_done tt)
            (λ _.
              Safe-bind _ (der_loop-Safe sf 0 c (ground arith) h)
                (λ r q. safe_done (nonneg-OptionAt r q))))

  der_read_length-Safe : (c : Cursor) → At xs k c → Safe OptionAt (der_read_length c)
  unfolding der_read_length
  der_read_length-Safe c (l, q) =
      Safe-if (ltb c.left 1) (λ _. safe_done tt)
        (λ e.
          Safe-bind _ (next_byte-Safe c.buf (c.left - 1) (ground arith, q))
            (λ r w. Safe-if (leb 128 r.0) (λ _. der_read_long-Safe _ _ w.0) (λ _. safe_done w.0)))

  seqsize-Safe :
      (r : Option (ℕ × Cursor))
      → OptionAt r
      → Safe (At xs k) (elim r [
        | none ↦ failed defective_token none
        | some (n, c') ↦ if n == c'.left then done c' else failed defective_token none
      ])
  seqsize-Safe none h = safe_failed
  seqsize-Safe (some (n, c)) h = Safe-if (n == c.left) (λ _. safe_done h) (λ _. safe_failed)

  read_seqsize-Safe : (c : Cursor) → At xs k c → Safe (At xs k) (read_seqsize c)
  unfolding read_seqsize
  read_seqsize-Safe c h = Safe-bind _ (der_read_length-Safe c h) seqsize-Safe

module _ (xs : List ℕ) (k : ℕ) where
  plus_one : (c : Cursor) → At xs (k + 1) c → At xs (suc k) c
  plus_one c (l, q) = (omega arith, q)

  read_oid-Safe : (c : Cursor) → At xs k c → Safe (λ r. At xs k r.1 × (0 < length r.0)) (read_oid c)
  unfolding read_oid
  read_oid-Safe c h = Safe-bind _ (spend-Safe xs k 1 none c h) λ c1 h1.
      Safe-bind _ (expect-Safe xs k 0x06 c1 (plus_one c1 h1)) λ c2 h2.
        Safe-bind _ (spend-Safe xs k 1 none c2 h2) λ c3 h3.
          Safe-bind _ (next_byte-Safe xs k c3.buf c3.left (plus_one c3 h3)) λ r4 h4.
            Safe-bind _ (spend-Safe xs k r4.0 none r4.1 h4.0) λ c5 h5.
              Safe-bind _ (take_bytes-Safe xs k r4.0 c5.buf c5.left h5) λ r6 h6.
                Safe-if (length r6.0 == 0) (λ _. safe_failed) (λ e. safe_done (h6.0, ground arith))

  read_mech-Safe :
      (c : Cursor) → At xs k c → Safe (λ r. At xs k r.1 × (0 < length r.0)) (read_mech c)
  unfolding read_mech
  read_mech-Safe c h = Safe-bind _ (spend-Safe xs k 1 none c h) λ c1 h1.
      Safe-bind _ (expect-Safe xs k 0x60 c1 (plus_one c1 h1))
        λ c2 h2. Safe-bind _ (read_seqsize-Safe xs k c2 h2) λ c3 h3. read_oid-Safe c3 h3

  read_type-Safe :
      (o : Option Oid) (c : Cursor) → At xs k c → Safe (λ r. At xs k r.1) (read_type o c)
  unfolding read_type
  read_type-Safe o c h = Safe-bind _ (spend-Safe xs k 2 o c h) λ c1 h1.
      Safe-bind _ (next_byte-Safe xs (suc k) c1.buf c1.left (omega (arith, h1.0), h1.1))
        λ r2 h2. Safe-bind _ (next_byte-Safe xs k r2.1.buf r2.1.left h2.0) λ r3 h3. safe_done h3.0

  verify_type-Safe :
      (w : Bool) (o : Option Oid) (c : Cursor)
      → At xs k c
      → Safe (λ h. (h.mech ≡ o) × At xs k h.body) (verify_type w o c)
  unfolding verify_type
  verify_type-Safe w o c h =
      Safe-if w (λ _. Safe-bind _ (read_type-Safe o c h) (λ r q. safe_done (refl, q)))
        (λ _. safe_done (refl, h))

-- What a successful `verifyTokenHeader` returns of a token of `toksize` bytes at `xs`.
pub record IsWithin (xs : List ℕ) (toksize : ℕ) (h : Header) : Type 0 where
  pub consumed : List ℕ
  pub rest : consumed ++ h.body.buf ≡ xs
  pub size : length consumed + h.body.left ≡ toksize

IsWithin-of_At :
    (xs : List ℕ) (toksize k : ℕ) (h : Header)
    → length xs ≡ toksize + k
    → At xs k h.body
    → IsWithin xs toksize h
IsWithin-of_At xs toksize k h e (l, (p, q)) = record {
  consumed = p;
  rest = q;
  size = omega (arith, length-append p h.body.buf, ap length q);
}

-- The OID that `verifyTokenHeader` stores is never empty.
abbrev pub HasOid : Option Oid → Type 0
HasOid none = Unit
HasOid (some o) = 0 < length o

-- For every token of `toksize` bytes in a buffer that holds at least those, `verifyTokenHeader`
-- reads nothing outside the buffer. If it succeeds, the bytes that it has consumed and the body
-- size that it returns make up `toksize`, the returned pointer stands behind the consumed bytes,
-- and the OID that it stores is not empty.
pub verify_token_header-Safe :
    (want_mech want_type : Bool) (xs : List ℕ) (toksize : ℕ)
    → toksize ≤ length xs
    → Safe
        (λ h. IsWithin xs toksize h × HasOid h.mech)
        (verify_token_header want_mech want_type xs toksize)
unfolding verify_token_header
verify_token_header-Safe want_mech want_type xs toksize enough =
    let k : ℕ = length xs - toksize in
    let start : At xs k (record { buf = xs; left = toksize }) = (omega arith, ([], refl)) in
    let total : length xs ≡ toksize + k = omega arith in
    Safe-if want_mech
      (λ _. Safe-bind _ (read_mech-Safe xs k _ start) λ r q.
        Safe-map (verify_type-Safe xs k want_type (some r.0) r.1 q.0)
          (λ h w. (IsWithin-of_At xs toksize k h total w.1, rw w.0 q.1)))
      (λ _.
        Safe-map (verify_type-Safe xs k want_type none _ start)
          (λ h w. (IsWithin-of_At xs toksize k h total w.1, rw w.0 tt)))
