-- ===== src/Sequence/Sorted.antt =====
-- The numbers of a window rise: what insertions keep of that.
use libbrowserid.Prelude.{
  ℕ, suc, ◌<◌, ◌≤◌, ◌≡◌, ◌≢◌, refl, ap, ◌∙◌, List, [], ◌∷◌, ◌++◌, arith, true, false, ◌&&◌, ◌⊎◌,
  Bool-cases, inl, inr, ◌==◌, ltb,
}
use libbrowserid.Sequence.Window.{newest, Place, found, placed, nowhere, keep, find_place}

abbrev pub In : ℕ → List ℕ → Type 0
In h [] = ⊥
In h (x ∷ r) = (h ≡ x) ⊎ In h r

-- A rising list of numbers from `lo` up to below `mask`.
abbrev pub Rising : ℕ → ℕ → List ℕ → Type 0
Rising mask lo [] = Unit
Rising mask lo (x ∷ r) = (lo ≤ x) × (x < mask) × Rising mask (suc x) r

pub In-append : (h s : ℕ) (r : List ℕ) → In h r → In h (r ++ (s ∷ []))
In-append h s [] m = elim m [ ]
In-append h s (x ∷ r) (inl e) = inl e
In-append h s (x ∷ r) (inr m) = inr (In-append h s r m)

pub In-append_new : (s : ℕ) (r : List ℕ) → In s (r ++ (s ∷ []))
In-append_new s [] = inl refl
In-append_new s (x ∷ r) = inr (In-append_new s r)

-- `w` is `x ∷ r` with `s` somewhere behind `x`.
pub record Inserted (s x : ℕ) (r w : List ℕ) : Type 0 where
  pub tail : List ℕ
  pub cons : w ≡ x ∷ tail
  pub has : In s tail
  pub keeps : (h : ℕ) → In h r → In h tail

pub keep_cases :
    (x : ℕ) {p : Place} → (p ≡ found) ⊎ (p ≡ nowhere) → (keep x p ≡ found) ⊎ (keep x p ≡ nowhere)
keep_cases x (inl e) = inl (rw e)
keep_cases x (inr e) = inr (rw e)

pub keep_placed :
    (x : ℕ) (p : Place) {w : List ℕ}
    → keep x p ≡ placed w
    → (w' : List ℕ) × (p ≡ placed w') × (w ≡ x ∷ w')
keep_placed x found e = cc
keep_placed x nowhere e = cc
keep_placed x (placed w') e = (w', refl, cc)

pub keep_In :
    {s x : ℕ} {r w : List ℕ} (ins : Inserted s x r w) (h : ℕ) → In h (x ∷ r) → In h (x ∷ ins.tail)
keep_In ins h (inl e) = inl e
keep_In ins h (inr m) = inr (ins.keeps h m)

module _ (mask : ℕ) where
  -- The last number is the largest.
  pub newest_bounds :
      (lo x : ℕ) (r : List ℕ)
      → Rising mask lo (x ∷ r)
      → (lo ≤ newest x r) × (x ≤ newest x r) × (newest x r < mask)
  newest_bounds lo x [] h = omega arith
  newest_bounds lo x (y ∷ r) (l, m, h) = omega (arith, newest_bounds (suc x) y r h)

  pub In-le-newest :
      (h lo x : ℕ) (r : List ℕ) → Rising mask lo (x ∷ r) → In h (x ∷ r) → h ≤ newest x r
  In-le-newest h lo x [] v m = ground arith
  In-le-newest h lo x (y ∷ r) (l, b, v) (inl e) = omega (arith, newest_bounds (suc x) y r v)
  In-le-newest h lo x (y ∷ r) (l, b, v) (inr m) = In-le-newest h (suc x) y r v m

  pub Rising-append :
      (lo x s : ℕ) (r : List ℕ)
      → Rising mask lo (x ∷ r)
      → newest x r < s
      → s < mask
      → Rising mask lo (x ∷ (r ++ (s ∷ [])))
  Rising-append lo x s [] (l, b, t) n m = (l, b, (n, m, tt))
  Rising-append lo x s (y ∷ r) (l, b, h) n m = (l, b, Rising-append (suc x) y s r h n m)

  In-ge : (h lo : ℕ) (r : List ℕ) → Rising mask lo r → In h r → lo ≤ h
  In-ge h lo [] v m = elim m [ ]
  In-ge h lo (x ∷ r) (l, b, v) (inl e) = omega arith
  In-ge h lo (x ∷ r) (l, b, v) (inr m) = omega (arith, In-ge h (suc x) r v m)

  -- The search goes on behind `x`.
  pub find_place-on :
      (s x y : ℕ) (r : List ℕ)
      → s ≢ x
      → (s ≤ x) ⊎ (y ≤ s)
      → find_place s x (y ∷ r) ≡ keep x (find_place s y r)
  unfolding find_place
  find_place-on s x y r n o = ground arith

  -- A number of the list is never given a place in it.
  pub find_place-In :
      (h lo x : ℕ) (r : List ℕ)
      → Rising mask lo (x ∷ r)
      → In h (x ∷ r)
      → (find_place h x r ≡ found) ⊎ (find_place h x r ≡ nowhere)
  find_place-In h lo x [] v m = unfold find_place in inr refl
  find_place-In h lo x (y ∷ r) (l, b, v) (inl e) = unfold find_place in inl (ground arith)
  find_place-In h lo x (y ∷ r) (l, b, v) (inr m) =
      let above : y ≤ h = In-ge h y (y ∷ r) (omega arith, v.1, v.2) m in
      let on : find_place h x (y ∷ r) ≡ keep x (find_place h y r) =
        find_place-on h x y r (omega arith) (inr above) in
      rw on (keep_cases x (find_place-In h (suc x) y r v m))

  find_place-same :
      (s x y : ℕ) (r : List ℕ) {w : List ℕ}
      → (s == x) ≡ true
      → find_place s x (y ∷ r) ≡ placed w
      → ⊥
  unfolding find_place
  find_place-same s x y r a e = ground arith

  find_place-here :
      (s x y : ℕ) (r : List ℕ) {w : List ℕ}
      → (s == x) ≡ false
      → (ltb x s && ltb s y) ≡ true
      → find_place s x (y ∷ r) ≡ placed w
      → w ≡ x ∷ s ∷ y ∷ r
  unfolding find_place
  find_place-here s x y r a b e = ground arith

  find_place-next :
      (s x y : ℕ) (r : List ℕ) {w : List ℕ}
      → (s == x) ≡ false
      → (ltb x s && ltb s y) ≡ false
      → find_place s x (y ∷ r) ≡ placed w
      → keep x (find_place s y r) ≡ placed w
  unfolding find_place
  find_place-next s x y r a b e = rw (a, b) at e

  -- Nor is a number below all of them.
  pub find_place-below :
      (h lo x : ℕ) (r : List ℕ) → Rising mask lo (x ∷ r) → h < x → find_place h x r ≡ nowhere
  find_place-below h lo x [] v b = unfold find_place in refl
  find_place-below h lo x (y ∷ r) (l, b, v) m =
      find_place-on h x y r (omega arith) (inl (omega arith))
      ∙ ap (keep x) (find_place-below h (suc x) y r v (omega (arith, v.0)))

  -- A place is behind the first number, and the list still rises.
  pub find_place-Rising :
      (s lo x : ℕ) (r w : List ℕ)
      → Rising mask lo (x ∷ r)
      → find_place s x r ≡ placed w
      → Inserted s x r w × (Rising mask lo w)
  find_place-Rising s lo x [] w v e = unfold find_place in absurd (cc)
  find_place-Rising s lo x (y ∷ r) w (l, b, v) e = elim (Bool-cases (s == x)) [
    | inl same ↦ absurd (find_place-same s x y r same e)
    | inr other ↦ elim (Bool-cases (ltb x s && ltb s y)) [
      | inl here ↦
          let w_eq : w ≡ x ∷ s ∷ y ∷ r = find_place-here s x y r other here e in
          (
            record { tail = s ∷ y ∷ r; cons = w_eq; has = inl refl; keeps = λ h m. inr m },
            rw w_eq (l, b, (ground arith, ground arith, (ground arith, v.1, v.2))),
          )
      | inr on ↦
          let (w', e', cons) =
            keep_placed x (find_place s y r) (find_place-next s x y r other on e) in
          let (ins, rising) = find_place-Rising s (suc x) y r w' v e' in
          (
            record {
              tail = w';
              cons = cons;
              has = rw (ins.cons) (inr ins.has);
              keeps = λ h m. rw (ins.cons) (keep_In ins h m);
            },
            rw cons (l, b, rising),
          )
    ]
  ]
