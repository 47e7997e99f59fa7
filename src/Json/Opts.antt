-- ===== src/Json/Opts.antt =====
-- libbrowserid/bid_util.c: the protocol options, sent as an array of names and read back as flags
-- of the verifier. A flag is the number of its bit.
pub mod RoundTrip
mod Tests
use libbrowserid.Prelude.{
  ℕ, ◌+◌, ◌/◌, ◌%◌, ◌^◌, Bool, true, false, not, List, [], ◌∷◌, Option, none, some, ◌==◌,
  if◌then◌else◌,
}
use libbrowserid.Status.{Result, good, bad, invalid_json, ◌>>=◌}
use libbrowserid.Base64.{codes}
use libbrowserid.Spn.{str_eq}
use libbrowserid.Json.{Jansson, allocated}

-- `flags & flag` and `flags |= flag`
abbrev pub has_flag : ℕ → ℕ → Bool
has_flag flags bit = not (flags / 2 ^ bit % 2 == 0)

abbrev pub add_flag : ℕ → ℕ → ℕ
add_flag flags bit = if has_flag flags bit then flags else flags + 2 ^ bit

-- BID_ACQUIRE_FLAG_EXTRA_ROUND_TRIP and so on, and BID_VERIFY_FLAG_EXTRA_ROUND_TRIP and so on.
pub record Opt : Type 0 where
  pub acquire : ℕ
  pub verify : ℕ
  pub name : List ℕ

-- `_BIDOptionsMap`
abbrev pub options_map : List Opt
options_map =
    (record { acquire = 3; verify = 20; name = codes "xrt" })
    ∷ (record { acquire = 4; verify = 21; name = codes "dce" })
    ∷ (record { acquire = 5; verify = 22; name = codes "ify" })
    ∷ (record { acquire = 2; verify = 23; name = codes "ma" })
    ∷ []

-- The inner loop of `_BIDParseProtocolOpts`.
pub add_option : List Opt → List ℕ → ℕ → ℕ
add_option [] s flags = flags
add_option (opt ∷ opts) s flags =
    let rest = add_option opts s flags in
    if str_eq s opt.name then add_flag flags opt.verify else rest

module _ (J : Jansson) where
  -- The loop of `_BIDMakeProtocolOpts`.
  pub make_opts : List Opt → ℕ → Result (List J.json)
  make_opts [] flags = good []
  make_opts (opt ∷ opts) flags =
      let rest = make_opts opts flags in
      if has_flag flags opt.acquire
      then (do name ← allocated J (J.string opt.name); names ← rest; good (name ∷ names))
      else rest

  abbrev pub nonempty : List J.json → Option J.json
  nonempty [] = none
  nonempty (j ∷ js) = some (J.array (j ∷ js))

  -- `_BIDMakeProtocolOpts`; with no option `*pOpts` is left NULL.
  pub make_protocol_opts : ℕ → Result (Option J.json)
  make_protocol_opts flags = do names ← make_opts options_map flags; good (nonempty names)

  -- One element of the array; one that is not a string is left out.
  abbrev pub add_text : ℕ → Option (List ℕ) → ℕ
  add_text flags none = flags
  add_text flags (some s) = add_option options_map s flags

  -- The outer loop of `_BIDParseProtocolOpts`.
  pub parse_loop : List J.json → ℕ → ℕ
  parse_loop [] flags = flags
  parse_loop (opt ∷ opts) flags = parse_loop opts (add_text flags (J.string_value opt))

  abbrev pub parse_items : ℕ → Option (List J.json) → Result ℕ
  parse_items flags none = bad invalid_json
  parse_items flags (some opts) = good (parse_loop opts flags)

  -- `_BIDParseProtocolOpts`: the new flags; with an error they are as before.
  unfoldable pub parse_protocol_opts : Option J.json → ℕ → Result ℕ
  parse_protocol_opts none flags = good flags
  parse_protocol_opts (some opts) flags = parse_items flags (J.array_items opts)
