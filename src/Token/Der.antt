-- ===== src/Token/Der.antt =====
-- The DER lengths of util_token.c: what is written is read back.
use libbrowserid.Prelude.{
  ℕ, ◌-◌, ◌%◌, ◌/◌, ◌^◌, ◌≤◌, ◌<◌, ◌≡◌, List, [], ◌∷◌, ◌++◌, some, length, arith,
}
use native.Mathlib.Decide.{dec_lt}
use libbrowserid.Token.{done, der_length_size, der_write_length, der_read_length}

write_short : (n : ℕ) → n < 128 → der_write_length n ≡ n ∷ []
unfolding der_write_length
write_short n h = ground arith

write_long1 : (n : ℕ) → 128 ≤ n → n < 256 → der_write_length n ≡ 129 ∷ n ∷ []
unfolding der_write_length
write_long1 n l h = ground arith

write_long2 : (n : ℕ) → 256 ≤ n → n < 2 ^ 16 → der_write_length n ≡ 130 ∷ (n / 256) ∷ (n % 256) ∷ []
unfolding der_write_length
write_long2 n l h = ground arith

write_long3 :
    (n : ℕ)
    → 2 ^ 16 ≤ n
    → n < 2 ^ 24
    → der_write_length n ≡ 131 ∷ (n / 2 ^ 16) ∷ (n / 256 % 256) ∷ (n % 256) ∷ []
unfolding der_write_length
write_long3 n l h = ground arith

write_long4 :
    (n : ℕ)
    → 2 ^ 24 ≤ n
    → n < 2 ^ 31
    → der_write_length n
      ≡ 132 ∷ (n / 2 ^ 24) ∷ (n / 2 ^ 16 % 256) ∷ (n / 256 % 256) ∷ (n % 256) ∷ []
unfolding der_write_length
write_long4 n l h = ground arith

-- Reading `bytes` gives `n`, and leaves the cursor behind them.
abbrev pub ReadsBack : ℕ → List ℕ → List ℕ → ℕ → Type 0
ReadsBack n bytes rest left =
    der_read_length (record { buf = bytes ++ rest; left = left })
    ≡ done (some (n, record { buf = rest; left = left - length bytes }))

read_short :
    (n : ℕ) (rest : List ℕ) (left : ℕ) → n < 128 → 1 < left → ReadsBack n (n ∷ []) rest left
unfolding der_read_length
read_short n rest left h l = ground arith

read_long1 :
    (n : ℕ) (rest : List ℕ) (left : ℕ)
    → 128 ≤ n
    → n < 256
    → 2 < left
    → ReadsBack n (129 ∷ n ∷ []) rest left
unfolding der_read_length
read_long1 n rest left h h' l = ground arith

read_long2 :
    (n : ℕ) (rest : List ℕ) (left : ℕ)
    → 256 ≤ n
    → n < 2 ^ 16
    → 3 < left
    → ReadsBack n (130 ∷ (n / 256) ∷ (n % 256) ∷ []) rest left
unfolding der_read_length
read_long2 n rest left h h' l = ground arith

read_long3 :
    (n : ℕ) (rest : List ℕ) (left : ℕ)
    → 2 ^ 16 ≤ n
    → n < 2 ^ 24
    → 4 < left
    → ReadsBack n (131 ∷ (n / 2 ^ 16) ∷ (n / 256 % 256) ∷ (n % 256) ∷ []) rest left
unfolding der_read_length
read_long3 n rest left h h' l = ground arith

read_long4 :
    (n : ℕ) (rest : List ℕ) (left : ℕ)
    → 2 ^ 24 ≤ n
    → n < 2 ^ 31
    → 5 < left
    → ReadsBack n
        (132 ∷ (n / 2 ^ 24) ∷ (n / 2 ^ 16 % 256) ∷ (n / 256 % 256) ∷ (n % 256) ∷ [])
        rest
        left
unfolding der_read_length
read_long4 n rest left h h' l = ground arith

-- `der_length_size` is the number of bytes that `der_write_length` writes, for lengths of 32 bits.
pub length-der_write_length : (n : ℕ) → n < 2 ^ 32 → length (der_write_length n) ≡ der_length_size n
unfolding der_write_length
length-der_write_length n h = ground arith

-- `der_read_length` reads back a length below 2^31 that `der_write_length` wrote, and takes
-- exactly its bytes, if the token has at least one byte behind them.
pub der_read_length-write :
    (n : ℕ) (rest : List ℕ) (left : ℕ)
    → n < 2 ^ 31
    → length (der_write_length n) < left
    → ReadsBack n (der_write_length n) rest left
der_read_length-write n rest left h l = elim (dec_lt n 128) [
  | yes a ↦ rw (write_short n a) (read_short n rest left a (rw (write_short n a) at l))
  | no a ↦ elim (dec_lt n 256) [
    | yes b ↦
        let e : der_write_length n ≡ 129 ∷ n ∷ [] = write_long1 n (omega arith) b in
        rw e (read_long1 n rest left (omega arith) b (rw e at l))
    | no b ↦ elim (dec_lt n (2 ^ 16)) [
      | yes c ↦
          let e : der_write_length n ≡ 130 ∷ (n / 256) ∷ (n % 256) ∷ [] =
            write_long2 n (omega arith) c in
          rw e (read_long2 n rest left (omega arith) c (rw e at l))
      | no c ↦ elim (dec_lt n (2 ^ 24)) [
        | yes d ↦
            rw (write_long3 n (omega arith) d)
              (read_long3 n rest left (omega arith) d (rw (write_long3 n (omega arith) d) at l))
        | no d ↦
            rw (write_long4 n (omega arith) h)
              (read_long4 n rest left (omega arith) h (rw (write_long4 n (omega arith) h) at l))
      ]
    ]
  ]
]
