-- ===== src/Spn/Hostify.antt =====
-- `_BIDHostifySpn` gives a host name that it leaves as it is.
use mathlib.Core.Path.{subst}
use libbrowserid.Prelude.{
  ℕ, ◌≡◌, refl, ap, ap₂, Bool, true, false, List, [], ◌∷◌, ◌++◌, Option, none, some, map, arith,
  leb, ◌==◌, ◌&&◌, ◌||◌, if◌then◌else◌, Bool-cases, inl, inr, Option-cases, ◌⊎◌, ◌∙◌, sym,
}
use libbrowserid.Status.{good, bad, bad_audience}
use libbrowserid.Spn.{tolower, host_chars, spn_host, host_prefix, host_spn, hostify_spn}

tolower_twice : (c : ℕ) → tolower (tolower c) ≡ tolower c
tolower_twice c = ground arith

map-tolower_twice : (cs : List ℕ) → map tolower (map tolower cs) ≡ map tolower cs
map-tolower_twice [] = refl
map-tolower_twice (c ∷ cs) = ap₂ ◌∷◌ (tolower_twice c) (map-tolower_twice cs)

-- The characters counted as the host are counted again when they are scanned in lower case.
host_chars-lower :
    (e : Bool) (cs : List ℕ)
    → host_chars e (map tolower (host_chars e cs)) ≡ map tolower (host_chars e cs)
unfolding host_chars
host_chars-lower e [] = refl
host_chars-lower e (c ∷ cs) = ground (arith, host_chars-lower true cs, host_chars-lower false cs)

IsHost : List ℕ → Type 0
IsHost h = host_chars false (map tolower h) ≡ map tolower h

IsHost-eq : (h : List ℕ) → IsHost h → host_chars false (map tolower h) ≡ map tolower h
unfolding IsHost
IsHost-eq h e = e

spn_host-IsHost : (e : Bool) (s h : List ℕ) → spn_host e s ≡ some h → IsHost h
unfolding spn_host IsHost
spn_host-IsHost e [] h eq = cc
spn_host-IsHost e (c ∷ q) h eq =
    ground (arith, spn_host-IsHost true q h, spn_host-IsHost false q h, host_chars-lower false q)

hostify_spn_fixed :
    (x : List ℕ)
    → IsHost x
    → hostify_spn (host_prefix ++ map tolower x) ≡ good (host_prefix ++ map tolower x)
unfolding hostify_spn spn_host IsHost
hostify_spn_fixed x h =
    ap (λ cs. good (host_prefix ++ cs)) (ap (map tolower) h ∙ map-tolower_twice x)

hostify_spn-some :
    (s h : List ℕ)
    → hostify_spn s ≡ good h
    → (x : List ℕ) × (spn_host false s ≡ some x) × (h ≡ host_prefix ++ map tolower x)
unfolding hostify_spn
hostify_spn-some s h eq = from (spn_host false s) refl eq
  where
    from :
        (o : Option (List ℕ))
        → spn_host false s ≡ o
        → host_spn o ≡ good h
        → (x : List ℕ) × (spn_host false s ≡ some x) × (h ≡ host_prefix ++ map tolower x)
    from none e k = cc
    from (some x) e k = (x, e, (let inj : host_prefix ++ map tolower x ≡ h = cc in sym inj))

abbrev is_separator : ℕ → Bool
is_separator c = c == b'/' || c == b'@'

abbrev is_upper : ℕ → Bool
is_upper c = leb b'A' c && leb c b'Z'

-- No capital letter, and no separator but behind a backslash; the flag tells whether one is in front.
abbrev pub IsName : Bool → List ℕ → Type 0
IsName escaped [] = Unit
IsName escaped (c ∷ cs) =
    (is_upper c ≡ false) × ((escaped ≡ true) ⊎ (is_separator c ≡ false)) × IsName (c == b'\\') cs

tolower-is_upper : (c : ℕ) → is_upper (tolower c) ≡ false
tolower-is_upper c = ground arith

tolower_same :
    (c : ℕ) → ((tolower c == b'\\') ≡ (c == b'\\')) × (is_separator (tolower c) ≡ is_separator c)
tolower_same c = (ground arith, ground arith)

-- A character and what is counted behind it.
IsName-step :
    (e b : Bool) (c : ℕ) (cs : List ℕ)
    → (c == b'\\') ≡ b
    → (e ≡ true) ⊎ (is_separator c ≡ false)
    → IsName b (map tolower cs)
    → IsName e (map tolower (c ∷ cs))
IsName-step e b c cs h k rest = (
  tolower-is_upper c,
  elim k [ inl x ↦ inl x | inr y ↦ inr ((tolower_same c).1 ∙ y) ],
  subst (λ x. IsName x (map tolower cs)) (sym ((tolower_same c).0 ∙ h)) rest,
)

no_separator : (c : ℕ) → (c == b'\\') ≡ true → is_separator c ≡ false
no_separator c h = ground arith

-- A character that is no backslash ends the name, if it is a separator without one in front.
counted-IsName :
    (e : Bool) (c : ℕ) (cs : List ℕ)
    → (c == b'\\') ≡ false
    → IsName false (map tolower cs)
    → IsName e (map tolower (if e then c ∷ cs else if is_separator c then [] else c ∷ cs))
counted-IsName true c cs h rest = IsName-step true false c cs h (inl refl) rest
counted-IsName false c cs h rest = elim (Bool-cases (is_separator c)) [
  | inl ends ↦ rw ends tt
  | inr more ↦ rw more (IsName-step false false c cs h (inr more) rest)
]

host_chars-IsName : (e : Bool) (cs : List ℕ) → IsName e (map tolower (host_chars e cs))
unfolding host_chars
host_chars-IsName e [] = tt
host_chars-IsName e (c ∷ cs) = elim (Bool-cases (c == b'\\')) [
  | inl slash ↦ rw slash (
      IsName-step e true c (host_chars true cs) slash (inr (no_separator c slash))
        (host_chars-IsName true cs))
  | inr other ↦
      rw other (counted-IsName e c (host_chars false cs) other (host_chars-IsName false cs))
]

-- The host name that `_BIDHostifySpn` makes of a service name is "host/" and a name without capital
-- letters, in which every slash and at sign stands behind a backslash, and it is made into itself.
pub hostify_spn-hostify_spn :
    (s h : List ℕ)
    → hostify_spn s ≡ good h
    → (x : List ℕ) × (h ≡ host_prefix ++ x) × IsName false x × (hostify_spn h ≡ good h)
hostify_spn-hostify_spn s h eq =
    let (x, found, form) = hostify_spn-some s h eq in
    let host = spn_host-IsHost false s x found in
    (
      map tolower x,
      form,
      subst (IsName false) (ap (map tolower) (IsHost-eq x host) ∙ map-tolower_twice x)
          (host_chars-IsName false (map tolower x)),
      subst (λ t. hostify_spn t ≡ good t) (sym form) (hostify_spn_fixed x host),
    )

-- How the conversion ends.
pub hostify_spn-cases :
    (s : List ℕ)
    → (hostify_spn s ≡ bad bad_audience)
      ⊎ ((x : List ℕ) × (hostify_spn s ≡ good (host_prefix ++ x)))
unfolding hostify_spn
hostify_spn-cases s = elim (Option-cases (spn_host false s)) [
  | inl e ↦ inl (ap host_spn e)
  | inr (x, e) ↦ inr (map tolower x, ap host_spn e)
]
