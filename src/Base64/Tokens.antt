-- ===== src/Base64/Tokens.antt =====
-- What `_BIDBase64UrlTokenDecode` makes of the groups that the encoder writes.
use libbrowserid.Prelude.{ℕ, suc, ◌+◌, ◌*◌, ◌≡◌, refl, List, [], ◌∷◌, none, some, arith}
use libbrowserid.Base64.{token_loop, token_decode}
use libbrowserid.Base64.Chars.{IsCode}

code_step :
    (n val i c : ℕ) (t : List ℕ)
    → IsCode i c
    → token_loop (suc n) (c ∷ t) val 0 ≡ token_loop n t (val * 64 + i) 0
unfolding token_loop
code_step n val i c t h = rw (h.not_pad, h.found)

pad_step :
    (n val m : ℕ) (t : List ℕ)
    → token_loop (suc n) (b'=' ∷ t) val m ≡ token_loop n t (val * 64) (m + 1)
unfolding token_loop
pad_step n val m t = refl

code_after_pad :
    (n val m i c : ℕ) (t : List ℕ) → IsCode i c → token_loop (suc n) (c ∷ t) val (suc m) ≡ none
unfolding token_loop
code_after_pad n val m i c t h = rw (h.not_pad) (ground arith)

token_loop_end : (val m : ℕ) (t : List ℕ) → token_loop 0 t val m ≡ some (val, m)
unfolding token_loop
token_loop_end val m t = refl

token_loop-nil : (n val m : ℕ) → token_loop (suc n) [] val m ≡ token_loop n [] (val * 64) m
unfolding token_loop
token_loop-nil n val m = refl

module _ (i0 i1 i2 i3 c0 c1 c2 c3 : ℕ) (h0 : IsCode i0 c0) (h1 : IsCode i1 c1) (h2 : IsCode i2 c2)
    (h3 : IsCode i3 c3) where
  pub token_full :
      (rest : List ℕ)
      → token_decode (c0 ∷ c1 ∷ c2 ∷ c3 ∷ rest)
        ≡ some ((((0 * 64 + i0) * 64 + i1) * 64 + i2) * 64 + i3, 0)
  unfolding token_decode
  token_full rest = ground (
    arith,
    code_step 3 0 i0 c0 (c1 ∷ c2 ∷ c3 ∷ rest) h0,
    code_step 2 (0 * 64 + i0) i1 c1 (c2 ∷ c3 ∷ rest) h1,
    code_step 1 ((0 * 64 + i0) * 64 + i1) i2 c2 (c3 ∷ rest) h2,
    code_step 0 (((0 * 64 + i0) * 64 + i1) * 64 + i2) i3 c3 rest h3,
    token_loop_end ((((0 * 64 + i0) * 64 + i1) * 64 + i2) * 64 + i3) 0 rest,
  )

  pub token_two : token_decode (c0 ∷ c1 ∷ []) ≡ some (((0 * 64 + i0) * 64 + i1) * 64 * 64, 2)
  unfolding token_decode
  token_two = ground (
    arith,
    code_step 3 0 i0 c0 (c1 ∷ []) h0,
    code_step 2 (0 * 64 + i0) i1 c1 [] h1,
    token_loop-nil 1 ((0 * 64 + i0) * 64 + i1) 0,
    token_loop-nil 0 (((0 * 64 + i0) * 64 + i1) * 64) 0,
    token_loop_end (((0 * 64 + i0) * 64 + i1) * 64 * 64) 0 [],
  )

  pub token_three :
      token_decode (c0 ∷ c1 ∷ c2 ∷ []) ≡ some ((((0 * 64 + i0) * 64 + i1) * 64 + i2) * 64, 1)
  unfolding token_decode
  token_three = ground (
    arith,
    code_step 3 0 i0 c0 (c1 ∷ c2 ∷ []) h0,
    code_step 2 (0 * 64 + i0) i1 c1 (c2 ∷ []) h1,
    code_step 1 ((0 * 64 + i0) * 64 + i1) i2 c2 [] h2,
    token_loop-nil 0 (((0 * 64 + i0) * 64 + i1) * 64 + i2) 0,
    token_loop_end ((((0 * 64 + i0) * 64 + i1) * 64 + i2) * 64) 0 [],
  )

  pub token_three_padded :
      token_decode (c0 ∷ c1 ∷ c2 ∷ b'=' ∷ []) ≡ some ((((0 * 64 + i0) * 64 + i1) * 64 + i2) * 64, 1)
  unfolding token_decode
  token_three_padded = ground (
    arith,
    code_step 3 0 i0 c0 (c1 ∷ c2 ∷ b'=' ∷ []) h0,
    code_step 2 (0 * 64 + i0) i1 c1 (c2 ∷ b'=' ∷ []) h1,
    code_step 1 ((0 * 64 + i0) * 64 + i1) i2 c2 (b'=' ∷ []) h2,
    pad_step 0 (((0 * 64 + i0) * 64 + i1) * 64 + i2) 0 [],
    token_loop_end ((((0 * 64 + i0) * 64 + i1) * 64 + i2) * 64) 1 [],
  )

  -- A padding that a character follows is no token.
  pub token_broken_pad : (rest : List ℕ) → token_decode (c0 ∷ c1 ∷ b'=' ∷ c3 ∷ rest) ≡ none
  unfolding token_decode
  token_broken_pad rest = ground (
    arith,
    code_step 3 0 i0 c0 (c1 ∷ b'=' ∷ c3 ∷ rest) h0,
    code_step 2 (0 * 64 + i0) i1 c1 (b'=' ∷ c3 ∷ rest) h1,
    pad_step 1 ((0 * 64 + i0) * 64 + i1) 0 (c3 ∷ rest),
    code_after_pad 0 (((0 * 64 + i0) * 64 + i1) * 64) 0 i3 c3 rest h3,
  )
