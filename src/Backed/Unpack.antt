-- ===== src/Backed/Unpack.antt =====
-- What the parts of a backed assertion are unpacked into.
use libbrowserid.Prelude.{
  ℕ, ◌+◌, ◌≤◌, ◌<◌, ◌≡◌, refl, sym, ap, ◌∙◌, true, false, List, [], ◌∷◌, ◌++◌, append_assoc,
  append-nil, All, some, length, length-append, leb, ◌==◌, arith,
}
use libbrowserid.Status.{too_many_certs}
use libbrowserid.Json.{Jansson}
use libbrowserid.Jwt.{JsonText, Jwt, Parsed, parsed, rejected, bind, parse_jwt}
use libbrowserid.Backed.{
  max_certs, BackedAssertion, tilde_parts, with_assertion, unpack_loop, unpack_backed_assertion,
}

abbrev pub NoTilde : ℕ → Type 0
NoTilde c = (c == b'~') ≡ false

tilde_parts-append :
    (a b : List ℕ) → All NoTilde a → tilde_parts (a ++ (b'~' ∷ b)) ≡ a ∷ tilde_parts b
unfolding tilde_parts
tilde_parts-append [] b h = refl
tilde_parts-append (c ∷ a) b (h, hs) = rw (h, tilde_parts-append a b hs) refl

tilde_parts_one : (a : List ℕ) → All NoTilde a → tilde_parts a ≡ a ∷ []
unfolding tilde_parts
tilde_parts_one [] h = refl
tilde_parts_one (c ∷ a) (h, hs) = rw (h, tilde_parts_one a hs) refl

-- The texts of certificates, each with a tilde behind it, and a last text.
abbrev pub join : List (List ℕ) → List ℕ → List ℕ
join [] last = last
join (t ∷ ts) last = t ++ (b'~' ∷ join ts last)

abbrev pub parts_of : List (List ℕ) → List ℕ → List (List ℕ)
parts_of [] last = last ∷ []
parts_of (t ∷ ts) last = t ∷ parts_of ts last

pub tilde_parts-join :
    (ts : List (List ℕ)) (last : List ℕ)
    → All (All NoTilde) ts
    → All NoTilde last
    → tilde_parts (join ts last) ≡ parts_of ts last
tilde_parts-join [] last h l = tilde_parts_one last l
tilde_parts-join (t ∷ ts) last (h, hs) l =
    tilde_parts-append t (join ts last) h ∙ ap (◌∷◌ t) (tilde_parts-join ts last hs l)

module _ (J : Jansson) (T : JsonText J) where
  -- The texts are parsed into the tokens, one by one.
  pub data Parses : List (List ℕ) → List (Jwt J) → Type 0 where
    no_more : Parses [] []
    next :
        {t : List ℕ} {c : Jwt J} {ts : List (List ℕ)} {cs : List (Jwt J)}
        → parse_jwt J T t ≡ parsed (some c)
        → Parses ts cs
        → Parses (t ∷ ts) (c ∷ cs)

  abbrev backed : List ℕ → Jwt J → List (Jwt J) → Parsed (BackedAssertion J)
  backed enc a cs = parsed (record { enc_data = enc; assertion = a; certificates = cs })

  -- A part that another one follows is added to the certificates.
  unpack_loop-cons :
      (enc t u : List ℕ) (parts : List (List ℕ)) (done : List (Jwt J)) (c : Jwt J)
      → parse_jwt J T t ≡ parsed (some c)
      → length done < max_certs
      → unpack_loop J T enc (t ∷ u ∷ parts) done
        ≡ unpack_loop J T enc (u ∷ parts) (done ++ (c ∷ []))
  unfolding unpack_loop
  unpack_loop-cons enc t u parts done c h l =
      let fits : leb max_certs (length done) ≡ false = ground arith in rw (fits, h) refl

  -- The same, of the parts of texts.
  unpack_loop-parts :
      (enc t : List ℕ) (ts : List (List ℕ)) (last : List ℕ) (done : List (Jwt J)) (c : Jwt J)
      → parse_jwt J T t ≡ parsed (some c)
      → length done < max_certs
      → unpack_loop J T enc (t ∷ parts_of ts last) done
        ≡ unpack_loop J T enc (parts_of ts last) (done ++ (c ∷ []))
  unpack_loop-parts enc t [] last done c h l = unpack_loop-cons enc t last [] done c h l
  unpack_loop-parts enc t (u ∷ ts) last done c h l =
      unpack_loop-cons enc t u (parts_of ts last) done c h l

  pub unpack_loop-parts_of :
      (enc : List ℕ) (ts : List (List ℕ)) (last : List ℕ) (done cs : List (Jwt J)) (a : Jwt J)
      → Parses ts cs
      → parse_jwt J T last ≡ parsed (some a)
      → length done + length cs ≤ max_certs
      → unpack_loop J T enc (parts_of ts last) done ≡ backed enc a (done ++ cs)
  unpack_loop-parts_of enc _ last done _ a no_more l n =
      unfold unpack_loop in
      ap (λ r. bind r (with_assertion J T enc done)) l ∙ ap (backed enc a) (sym (append-nil done))
  unpack_loop-parts_of enc _ last done (c ∷ cs) a (next {t = t} h no_more) l n =
      unpack_loop-cons enc t last [] done c h (omega arith)
      ∙ (unpack_loop-parts_of enc [] last (done ++ (c ∷ [])) [] a no_more l
            (omega (arith, length-append done (c ∷ [])))
          ∙ ap (backed enc a) (append_assoc done (c ∷ []) []))
  unpack_loop-parts_of enc (t ∷ u ∷ ts) last done (c ∷ cs) a (next h (next h' hs)) l n =
      unpack_loop-cons enc t u (parts_of ts last) done c h (omega arith)
      ∙ (unpack_loop-parts_of enc (u ∷ ts) last (done ++ (c ∷ [])) cs a (next h' hs) l
            (omega (arith, length-append done (c ∷ [])))
          ∙ ap (backed enc a) (append_assoc done (c ∷ []) cs))

  -- A text of up to ten certificates and an assertion, each certificate with a tilde behind it, is
  -- unpacked by `_BIDUnpackBackedAssertion` into these certificates, in order, and the assertion,
  -- if `_BIDParseJWT` parses each part.
  pub unpack-join :
      (ts : List (List ℕ)) (last : List ℕ) (cs : List (Jwt J)) (a : Jwt J)
      → All (All NoTilde) ts
      → All NoTilde last
      → Parses ts cs
      → parse_jwt J T last ≡ parsed (some a)
      → length cs ≤ max_certs
      → unpack_backed_assertion J T (some (join ts last))
        ≡ parsed (record { enc_data = join ts last; assertion = a; certificates = cs })
  unfolding unpack_backed_assertion
  unpack-join ts last cs a ht hl h l n =
      ap (λ parts. unpack_loop J T (join ts last) parts []) (tilde_parts-join ts last ht hl)
      ∙ unpack_loop-parts_of (join ts last) ts last [] cs a h l (omega arith)

  -- Once ten certificates are stored, a part that another one follows is refused.
  unpack_loop-full :
      (enc t last : List ℕ) (ts : List (List ℕ)) (done : List (Jwt J))
      → length done ≡ max_certs
      → unpack_loop J T enc (t ∷ parts_of ts last) done ≡ rejected too_many_certs
  unfolding unpack_loop
  unpack_loop-full enc t last [] done l =
      let full : leb max_certs (length done) ≡ true = ground arith in rw full refl
  unpack_loop-full enc t last (u ∷ ts) done l =
      let full : leb max_certs (length done) ≡ true = ground arith in rw full refl

  unpack_loop-over :
      (enc t last : List ℕ) (ts more : List (List ℕ)) (done cs : List (Jwt J))
      → Parses ts cs
      → length done + length cs ≡ max_certs
      → unpack_loop J T enc (parts_of (ts ++ (t ∷ more)) last) done ≡ rejected too_many_certs
  unpack_loop-over enc t last _ more done _ no_more l =
      unpack_loop-full enc t last more done (omega (arith, l))
  unpack_loop-over enc t last _ more done _ (next {t = s} {c = c} {ts = []} {cs = cs} h hs) l =
      unpack_loop-parts enc s (t ∷ more) last done c h (omega (arith, l))
      ∙ unpack_loop-over enc t last [] more (done ++ (c ∷ [])) cs hs
          (omega (arith, l, length-append done (c ∷ [])))
  unpack_loop-over enc t last _ more done _ (next {t = s} {c = c} {ts = u ∷ ts} {cs = cs} h hs) l =
      unpack_loop-parts enc s (u ∷ (ts ++ (t ∷ more))) last done c h (omega (arith, l))
      ∙ unpack_loop-over enc t last (u ∷ ts) more (done ++ (c ∷ [])) cs hs
          (omega (arith, l, length-append done (c ∷ [])))

  -- A text with an eleventh certificate is rejected by `_BIDUnpackBackedAssertion` with
  -- BID_S_TOO_MANY_CERTS as soon as ten are stored in the array of ten, if `_BIDParseJWT` parses each
  -- of these: the eleventh, those behind it and the assertion are not looked at, whatever they are.
  pub unpack-join_over :
      (ts : List (List ℕ)) (t : List ℕ) (more : List (List ℕ)) (last : List ℕ) (cs : List (Jwt J))
      → All (All NoTilde) (ts ++ (t ∷ more))
      → All NoTilde last
      → Parses ts cs
      → length cs ≡ max_certs
      → unpack_backed_assertion J T (some (join (ts ++ (t ∷ more)) last)) ≡ rejected too_many_certs
  unfolding unpack_backed_assertion
  unpack-join_over ts t more last cs ht hl h l =
      let text = join (ts ++ (t ∷ more)) last in
      ap (λ parts. unpack_loop J T text parts []) (tilde_parts-join (ts ++ (t ∷ more)) last ht hl)
      ∙ unpack_loop-over text t last ts more [] cs h (omega (arith, l))
