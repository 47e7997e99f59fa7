-- ===== src/Spn/Plain.antt =====
-- `_BIDHostifySpn` on a service name without escapes.
use libbrowserid.Prelude.{
  ℕ, ◌≡◌, refl, ap, ◌∙◌, false, ◌||◌, List, [], ◌∷◌, ◌++◌, some, map, ◌==◌, All, arith,
}
use libbrowserid.Status.{good}
use libbrowserid.Spn.{tolower, host_chars, spn_host, host_prefix, host_spn, hostify_spn}

-- A character without a meaning in service names.
abbrev pub IsPlain : ℕ → Type 0
IsPlain c = ((c == b'\\') || (c == b'/' || c == b'@')) ≡ false

-- What may follow the host: nothing, or a service or a realm behind a separator.
pub data IsTail : List ℕ → Type 0 where
  nothing : IsTail []
  service : {cs : List ℕ} → IsTail (b'/' ∷ cs)
  realm : {cs : List ℕ} → IsTail (b'@' ∷ cs)

host_chars-append :
    (host tail : List ℕ) → All IsPlain host → IsTail tail → host_chars false (host ++ tail) ≡ host
unfolding host_chars
host_chars-append [] _ p nothing = refl
host_chars-append [] _ p service = refl
host_chars-append [] _ p realm = refl
host_chars-append (c ∷ host) tail (p, ps) t = ground (arith, host_chars-append host tail ps t)

spn_host-append :
    (name rest : List ℕ)
    → All IsPlain name
    → spn_host false (name ++ (b'/' ∷ rest)) ≡ some (host_chars false rest)
unfolding spn_host
spn_host-append [] rest p = refl
spn_host-append (c ∷ name) rest (p, ps) = ground (arith, spn_host-append name rest ps)

-- A service name "service/host", alone or followed by another component or a realm, becomes
-- "host/" and the host in lower case, if neither part has a backslash, a slash or an at sign.
pub hostify_spn-append :
    (name host tail : List ℕ)
    → All IsPlain name
    → All IsPlain host
    → IsTail tail
    → hostify_spn (name ++ (b'/' ∷ (host ++ tail))) ≡ good (host_prefix ++ map tolower host)
unfolding hostify_spn
hostify_spn-append name host tail p q t =
    ap host_spn (spn_host-append name (host ++ tail) p ∙ ap some (host_chars-append host tail q t))
