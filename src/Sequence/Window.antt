-- ===== src/Sequence/Window.antt =====
-- The sequence state as a list, oldest number first: the specification of util_ordering.c.
use libbrowserid.Prelude.{ℕ, Bool, ◌&&◌, List, [], ◌∷◌, ◌++◌, ltb, ◌==◌, if◌then◌else◌}
use libbrowserid.Gss.{Major, complete, gap_token, duplicate_token, old_token, unseq_token, failure}

abbrev pub Window : Type 0
Window = List ℕ

-- The newest number, of a window that starts with `x`.
abbrev pub newest : ℕ → List ℕ → ℕ
newest x [] = x
newest x (y ∷ r) = newest y r

-- The oldest number goes when the window was full.
abbrev pub slide : Bool → Window → Window
slide full [] = []
slide full (x ∷ r) = if full then r else x ∷ r

-- A late number: it stands in the window, or goes between two neighbours, or has no place.
pub data Place : Type 0 where
  found : Place
  placed : Window → Place
  nowhere : Place

abbrev pub keep : ℕ → Place → Place
keep x found = found
keep x (placed w) = placed (x ∷ w)
keep x nowhere = nowhere

-- The newest number itself is not compared.
unfoldable pub find_place : ℕ → ℕ → List ℕ → Place
find_place s x [] = nowhere
find_place s x (y ∷ r) =
    let rest = keep x (find_place s y r) in
    if s == x then found else if ltb x s && ltb s y then placed (x ∷ s ∷ y ∷ r) else rest

-- What a check reports, and the window after it.
abbrev pub Report : Type 0
Report = Major × Window

-- The parameters: whether only replays matter, the next number that is expected after the
-- newest, whether the window is full, and whether a number's highest bit is set.
module _ (replay_only full : Bool) (next : ℕ → ℕ) (high : ℕ → Bool) where
  unfoldable pub late : Window → Place → Report
  late w found = (duplicate_token, w)
  late w (placed w') = (if replay_only then complete else unseq_token, slide full w')
  late w nowhere = (failure, w)

  unfoldable pub check : ℕ → ℕ → List ℕ → Report
  unfolding late find_place
  check s x r =
      if s == next (newest x r)
      then (complete, slide full (x ∷ (r ++ s ∷ [])))
      else if ltb (next (newest x r)) s
      then (if replay_only then complete else gap_token, slide full (x ∷ (r ++ s ∷ [])))
      else if ltb s x && high s
      then (if replay_only then old_token else unseq_token, x ∷ r)
      else if s == newest x r
      then (duplicate_token, x ∷ r)
      else late (x ∷ r) (find_place s x r)
