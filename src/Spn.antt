-- ===== src/Spn.antt =====
-- libbrowserid/bid_util.c: the service names that serve as audiences, made into host names.
pub mod Strings
pub mod Hostify
pub mod Plain
mod Tests
use libbrowserid.Prelude.{
  ℕ, ◌+◌, Bool, true, false, ◌&&◌, ◌||◌, List, [], ◌∷◌, ◌++◌, Option, none, some, ◌==◌, leb,
  if◌then◌else◌, map,
}
use libbrowserid.Status.{Result, good, bad, bad_audience}
use libbrowserid.Base64.{codes}

-- `strcmp(a, b) == 0`
abbrev pub str_eq : List ℕ → List ℕ → Bool
str_eq [] [] = true
str_eq [] (y ∷ ys) = false
str_eq (x ∷ xs) [] = false
str_eq (x ∷ xs) (y ∷ ys) = let rest = str_eq xs ys in (x == y) && rest

-- `tolower` of the C locale.
abbrev pub tolower : ℕ → ℕ
tolower c = if leb b'A' c && leb c b'Z' then c + 32 else c

-- The loop of `_BIDHostifySpn` once `szSpnHost` is set: the characters that it counts. The flag is
-- `bEscape`, which is only tested for zero.
pub host_chars : Bool → List ℕ → List ℕ
host_chars escape [] = []
host_chars escape (c ∷ q) =
    let after_escape = c ∷ host_chars true q in
    let after_char = c ∷ host_chars false q in
    if c == b'\\'
    then after_escape
    else if escape
    then after_char
    else if c == b'/' || c == b'@'
    then []
    else after_char

-- The loop before that; `none` where `szSpnHost` stays NULL.
pub spn_host : Bool → List ℕ → Option (List ℕ)
unfolding host_chars
spn_host escape [] = none
spn_host escape (c ∷ q) =
    let after_escape = spn_host true q in
    let after_char = spn_host false q in
    if c == b'\\'
    then after_escape
    else if escape
    then after_char
    else if c == b'/'
    then some (host_chars false q)
    else if c == b'@'
    then none
    else after_char

abbrev pub host_prefix : List ℕ
host_prefix = codes "host/"

-- The end of `_BIDHostifySpn`, which writes the name.
abbrev pub host_spn : Option (List ℕ) → Result (List ℕ)
host_spn none = bad bad_audience
host_spn (some host) = good (host_prefix ++ map tolower host)

-- `_BIDHostifySpn`
unfoldable pub hostify_spn : List ℕ → Result (List ℕ)
unfolding spn_host
hostify_spn spn = host_spn (spn_host false spn)
