-- ===== src/Base64/Bounds.antt =====
-- The buffers of bid_base64.c.
use libbrowserid.Prelude.{
  ℕ, zero, suc, ◌+◌, ◌-◌, ◌*◌, ◌/◌, ◌<◌, ◌≤◌, ◌≡◌, refl, sym, ap, ◌∙◌, append_assoc, Bool, true,
  false, List, [], ◌∷◌, ◌++◌, Option, none, some, ltb, ◌==◌, if◌then◌else◌, length, drop, arith,
  Bool-cases, Option-cases, inl, inr, length-append, length-drop,
}
use libbrowserid.Status.{invalid_base64}
use libbrowserid.Base64.{
  token_loop, token_decode, token_bytes, token_end, encode_loop, base64_expand, decode_loop,
  base64_url_decode, pos, Decoded, decoded, failed, aborted, stuck, overread,
}
use libbrowserid.Base64.Chars.{IsCode}
use libbrowserid.Base64.Tokens.{token_full}
use libbrowserid.Base64.Encoding.{decode_step}

length-encode_loop :
    (url : Bool) (bytes : List ℕ) → length (encode_loop url bytes) ≡ (length bytes + 2) / 3 * 4
unfolding encode_loop
length-encode_loop url [] = omega arith
length-encode_loop url (a ∷ []) = omega arith
length-encode_loop url (a ∷ b ∷ []) = omega arith
length-encode_loop url (a ∷ b ∷ d ∷ q) = omega (arith, length-encode_loop url q)

-- What `_BIDBase64Encode` writes, with the final NUL, fits the buffer that it allocates.
pub encode_loop-fits :
    (url : Bool) (bytes : List ℕ)
    → length (encode_loop url bytes) + 1 ≤ base64_expand (length bytes)
encode_loop-fits url bytes = omega (arith, length-encode_loop url bytes)

token_end-marker : (toklen : ℕ) (r : ℕ × ℕ) (val m : ℕ) → token_end toklen r ≡ some (val, m) → m ≤ 2
token_end-marker toklen (v, k) val m e = ground arith

-- A token's marker is at most 2.
token_decode-marker : (str : List ℕ) (val m : ℕ) → token_decode str ≡ some (val, m) → m ≤ 2
unfolding token_decode
token_decode-marker str val m e = elim (Bool-cases (ltb (length str) 2)) [
  | inl short ↦ absurd (cc (rw short at e))
  | inr long ↦ marker_of (token_loop 4 str 0 0) (rw long at e)
]
  where
    marker_of :
        (o : Option (ℕ × ℕ))
        → elim o [
          | none ↦ none
          | some r ↦ token_end (if ltb 4 (length str) then 4 else length str) r
        ]
          ≡ some (val, m)
        → m ≤ 2
    marker_of none h = cc
    marker_of (some r) h = token_end-marker _ r val m h

length-token_bytes : (val m : ℕ) → m ≤ 2 → length (token_bytes (val, m)) ≡ 3 - m
length-token_bytes val m h = ground arith

-- A string that ends in one character of the alphabet and one padding.
abbrev pub EndsLone : List ℕ → Type 0
EndsLone str =
    (pre : List ℕ) × (c : ℕ) × (i : ℕ) × (str ≡ pre ++ (c ∷ b'=' ∷ [])) × (pos c ≡ some i)

-- A decoder's result that stays within `n` bytes, with no failed assertion and no other error than
-- BID_S_INVALID_BASE64; behind the string it is sent only if `P` holds.
abbrev pub Within : ℕ → Type 0 → Decoded → Type 0
Within n P (decoded o) = length o ≤ n
Within n P (failed e) = e ≡ invalid_base64
Within n P overread = P
Within n P aborted = ⊥
Within n P stuck = ⊥

Within-map : {P Q : Type 0} (n : ℕ) (d : Decoded) → (P → Q) → Within n P d → Within n Q d
Within-map n (decoded o) f h = h
Within-map n (failed e) f h = h
Within-map n overread f h = f h
Within-map n aborted f h = h
Within-map n stuck f h = h

take-drop : (k : ℕ) (str : List ℕ) → (pre : List ℕ) × (str ≡ pre ++ drop k str)
take-drop zero str = ([], refl)
take-drop (suc k) [] = ([], refl)
take-drop (suc k) (c ∷ str) = let (pre, e) = take-drop k str in (c ∷ pre, ap (◌∷◌ c) e)

EndsLone-drop : (k : ℕ) (str : List ℕ) → EndsLone (drop k str) → EndsLone str
EndsLone-drop k str (pre, c, i, e, found) =
    let (front, f) = take-drop k str in
    (
      front ++ pre,
      c,
      i,
      f ∙ ap (◌++◌ front) e ∙ sym (append_assoc front pre (c ∷ b'=' ∷ [])),
      found,
    )

abbrev marker_or : Option (ℕ × ℕ) → ℕ
marker_or none = 0
marker_or (some r) = r.1

-- Three characters and the end of the string have a marker.
token_end-three :
    (o : Option (ℕ × ℕ)) (val k : ℕ)
    → elim o [ none ↦ none | some r ↦ token_end 3 r ] ≡ some (val, k)
    → 1 ≤ k
token_end-three none val k h = cc
token_end-three (some (v, m)) val k h = ground arith

-- The only token that counts more characters than are left.
token_decode-lone :
    (c : ℕ) (str : List ℕ) (val k : ℕ)
    → (c == b'=') ≡ false
    → token_decode (c ∷ str) ≡ some (val, k)
    → length (c ∷ str) < 4 - k
    → EndsLone (c ∷ str)
unfolding token_decode token_loop
token_decode-lone c [] val k e d l = absurd (let q : none ≡ some (val, k) = d in cc)
token_decode-lone c (x ∷ []) val k e d l = elim (Option-cases (pos c)) [
  | inl unknown ↦ absurd (cc (rw (e, unknown) at d))
  | inr (i, found) ↦ elim (Bool-cases (x == b'=')) [
    | inl padding ↦ ([], c, i, ap (λ y. c ∷ y ∷ []) (ground (arith, padding)), found)
    | inr more ↦ elim (Option-cases (pos x)) [
      | inl unknown ↦ absurd (cc (rw (e, found, more, unknown) at d))
      | inr (j, known) ↦
          let two : 2 ≡ k = ap marker_or (rw (e, found, more, known) at d) in
          absurd (omega (arith, l, two))
    ]
  ]
]
token_decode-lone c (x ∷ y ∷ []) val k e d l =
    absurd (omega (arith, l, token_end-three (token_loop 4 (c ∷ x ∷ y ∷ []) 0 0) val k d))
token_decode-lone c (x ∷ y ∷ z ∷ str) val k e d l = absurd (omega (arith, l))

decode_loop-Within :
    (n fuel max off : ℕ) (str out : List ℕ)
    → length str < fuel
    → off + length str ≤ n
    → n < max
    → length out ≤ off
    → Within n (EndsLone str) (decode_loop fuel max false off str out)
unfolding decode_loop
decode_loop-Within n zero max off str out f l m o = absurd (omega arith)
decode_loop-Within n (suc fuel) max off [] out f l m o = omega arith
decode_loop-Within n (suc fuel) max off (c ∷ str) out f l m o =
    let a : ltb off max ≡ true = ground arith in
    let b : ltb max (length out) ≡ false = ground arith in
    elim (Bool-cases (c == b'=')) [
      | inl e ↦ rw e (omega arith)
      | inr e ↦ elim (Option-cases (token_decode (c ∷ str))) [
        | inl d ↦ rw (e, a, b, d) refl
        | inr ((val, k), d) ↦
            let h : k ≤ 2 = token_decode-marker (c ∷ str) val k d in
            elim (Bool-cases (ltb (length (c ∷ str)) (4 - k))) [
              | inl over ↦
                  rw (e, a, b, d, over) (token_decode-lone c str val k e d (ground (arith, over)))
              | inr inside ↦
                  rw (e, a, b, d, inside)
                    (Within-map n _ (EndsLone-drop (4 - k) (c ∷ str)) (
                      decode_loop-Within n fuel max (off + (4 - k)) (drop (4 - k) (c ∷ str))
                        (out ++ token_bytes (val, k)) (omega (arith, length-drop (4 - k) (c ∷ str)))
                        (ground (arith, length-drop (4 - k) (c ∷ str))) m
                        (omega (
                          arith,
                          length-append out (token_bytes (val, k)),
                          length-token_bytes val k h,
                        ))))
            ]
      ]
    ]

-- `_BIDBase64UrlDecode` into its own buffer comes to an end for every string, and fails no
-- assertion: it returns bytes, or BID_S_INVALID_BASE64, or it is sent behind the NUL that ends the
-- string, which happens only if the string ends in a character of the alphabet and one padding. The
-- bytes are no more than the characters of the string, so they fit the buffer of `strlen(str) + 1`
-- and leave room for a NUL.
pub decode-Within : (str : List ℕ) → Within (length str) (EndsLone str) (base64_url_decode str none)
unfolding base64_url_decode
decode-Within str =
    decode_loop-Within (length str) (length str + 1) (length str + 1) 0 str [] (omega arith)
      (omega arith) (omega arith) (omega arith)

-- Groups of four characters of the alphabet.
pub data Groups : List ℕ → Type 0 where
  no_group : Groups []
  group :
      {i j k l a b c d : ℕ} {str : List ℕ}
      → IsCode i a
      → IsCode j b
      → IsCode k c
      → IsCode l d
      → Groups str
      → Groups (a ∷ b ∷ c ∷ d ∷ str)

token_lone : (i c : ℕ) → IsCode i c → token_decode (c ∷ b'=' ∷ []) ≡ some (i * 64 * 64 * 64, 1)
unfolding token_decode token_loop
token_lone i c h = rw (h.not_pad, h.found) (ground arith)

loop_reads_over :
    (fuel max off i c : ℕ) (str out : List ℕ)
    → Groups str
    → IsCode i c
    → length str < fuel
    → off + length str < max
    → length out ≤ off
    → decode_loop fuel max false off (str ++ (c ∷ b'=' ∷ [])) out ≡ overread
unfolding decode_loop
loop_reads_over zero max off i c str out g h f l o = absurd (omega (arith, f))
loop_reads_over (suc fuel) max off i c _ out no_group h f l o =
    let a : ltb off max ≡ true = ground (arith, l) in
    let b : ltb max (length out) ≡ false = ground (arith, l, o) in
    rw (h.not_pad, a, b, token_lone i c h) refl
loop_reads_over (suc fuel) max off i c _ out
      (group {i = i0} {j = i1} {k = i2} {l = i3} {a = c0} {b = c1} {c = c2} {d = c3} {str = str} h0
        h1 h2 h3 g)
      h f l o =
    decode_step fuel max off false c0 (c1 ∷ c2 ∷ c3 ∷ (str ++ (c ∷ b'=' ∷ []))) out
      (token_full i0 i1 i2 i3 c0 c1 c2 c3 h0 h1 h2 h3 (str ++ (c ∷ b'=' ∷ []))) h0.not_pad
      (omega (arith, l)) (omega (arith, l, o)) (omega arith)
    ∙ loop_reads_over fuel max (off + 4) i c str (out ++ token_bytes (_, 0)) g h (omega (arith, f))
        (omega (arith, l))
        (omega
          (arith, o, length-append out (token_bytes (_, 0)), length-token_bytes _ 0 (omega arith)))

-- A string of whole groups of four characters of the alphabet, with one more character and one
-- padding behind them, sends the decoder behind the NUL that ends the string.
pub decode_reads_over :
    (str : List ℕ) (i c : ℕ)
    → Groups str
    → IsCode i c
    → base64_url_decode (str ++ (c ∷ b'=' ∷ [])) none ≡ overread
unfolding base64_url_decode
decode_reads_over str i c g h =
    let size = length-append str (c ∷ b'=' ∷ []) in
    loop_reads_over _ _ 0 i c str [] g h (omega (arith, size)) (omega (arith, size)) (omega arith)
