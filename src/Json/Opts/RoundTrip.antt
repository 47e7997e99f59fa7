-- ===== src/Json/Opts/RoundTrip.antt =====
-- The options that the initiator makes are those that the acceptor reads.
use libbrowserid.Prelude.{
  ℕ, ◌≡◌, refl, ap, ◌∙◌, List, [], ◌∷◌, Option, All, if◌then◌else◌, Bool-cases, inl, inr, arith,
}
use libbrowserid.Status.{good, ◌>>=◌}
use libbrowserid.Json.{Jansson, IsJansson, IsAscii, allocated}
use libbrowserid.Json.Opts.{
  has_flag, add_flag, Opt, options_map, add_option, make_opts, nonempty, make_protocol_opts,
  add_text, parse_loop, parse_items, parse_protocol_opts,
}

abbrev pub move_flag : ℕ → ℕ → ℕ → ℕ → ℕ
move_flag from acquire verify to = if has_flag from acquire then add_flag to verify else to

abbrev move_all : List Opt → ℕ → ℕ → ℕ
move_all [] from to = to
move_all (opt ∷ opts) from to = move_all opts from (move_flag from opt.acquire opt.verify to)

record IsKnown (opt : Opt) : Type 0 where
  ascii : All IsAscii opt.name
  found : (flags : ℕ) → add_option options_map opt.name flags ≡ add_flag flags opt.verify

IsKnown-options : All IsKnown options_map
unfolding add_option
IsKnown-options = (
  record { ascii = (omega arith, (omega arith, (omega arith, tt))); found = λ f. refl },
  (
    record { ascii = (omega arith, (omega arith, (omega arith, tt))); found = λ f. refl },
    (
      record { ascii = (omega arith, (omega arith, (omega arith, tt))); found = λ f. refl },
      (record { ascii = (omega arith, (omega arith, tt)); found = λ f. refl }, tt),
    ),
  ),
)

module _ (J : Jansson) (L : IsJansson J) where
  make_opts-parse_loop :
      (opts : List Opt) (from to : ℕ)
      → All IsKnown opts
      → (names : List J.json) × (make_opts J opts from ≡ good names)
        × (parse_loop J names to ≡ move_all opts from to)
  unfolding make_opts parse_loop
  make_opts-parse_loop [] from to h = ([], refl, refl)
  make_opts-parse_loop (opt ∷ opts) from to (k, ks) =
      elim (Bool-cases (has_flag from opt.acquire)) [
        | inl has ↦
            let (j, made, text) = L.string-ascii opt.name k.ascii in
            let (names, e, p) = make_opts-parse_loop opts from (add_flag to opt.verify) ks in
            rw has (
              j ∷ names,
              ap (λ r. allocated J r >>= λ name. make_opts J opts from >>= λ ns. good (name ∷ ns))
                    made
                  ∙ ap (λ r. r >>= λ ns. good (j ∷ ns)) e,
              ap (parse_loop J names) (ap (add_text J to) text ∙ k.found to) ∙ p,
            )
        | inr lacks ↦
            let (names, e, p) = make_opts-parse_loop opts from to ks in rw lacks (names, e, p)
      ]

  -- The flags that the initiator asks for as options, made into an array by `_BIDMakeProtocolOpts`,
  -- are added by `_BIDParseProtocolOpts` to the verifier's flags, each as its verifier's flag: the
  -- extra round trip, DCE, identify and mutual authentication.
  pub parse-make_protocol_opts :
      (from to : ℕ)
      → (opts : Option J.json) × (make_protocol_opts J from ≡ good opts)
        × (parse_protocol_opts J opts to
            ≡ good (
                move_flag from 2 23
                  (move_flag from 5 22 (move_flag from 4 21 (move_flag from 3 20 to)))))
  unfolding make_protocol_opts parse_protocol_opts parse_loop
  parse-make_protocol_opts from to =
      let (names, made, parsed) = make_opts-parse_loop options_map from to IsKnown-options in
      (
        nonempty J names,
        ap (λ r. r >>= λ ns. good (nonempty J ns)) made,
        parse_nonempty names ∙ ap good parsed,
      )
    where
      parse_nonempty :
          (names : List J.json)
          → parse_protocol_opts J (nonempty J names) to ≡ good (parse_loop J names to)
      parse_nonempty [] = refl
      parse_nonempty (j ∷ js) = ap (parse_items J to) (L.array_items-array (j ∷ js))
