-- ===== src/Sequence/Replay/Check.antt =====
-- One check of a window, and one of a number that was taken before.
use libbrowserid.Prelude.{
  ℕ, suc, ◌<◌, ◌≤◌, ◌≡◌, refl, sym, ◌∙◌, List, [], ◌∷◌, ◌++◌, arith, Bool, true, false, ◌&&◌, ◌⊎◌,
  Bool-cases, inl, inr, ◌==◌, ltb, if◌then◌else◌,
}
use libbrowserid.Gss.{Major, complete, duplicate_token, old_token, unseq_token, failure}
use libbrowserid.Sequence.Window.{
  newest, slide, Place, found, placed, nowhere, keep, find_place, late, check, Report,
}
use libbrowserid.Sequence.Sorted.{
  In-append, In-append_new, newest_bounds, In-le-newest, Rising-append, find_place-In,
  find_place-below, find_place-on, find_place-Rising, keep_cases, keep_placed, keep_In,
}
use libbrowserid.Sequence.Replay.{Accepted, IsWindow, Recorded, Good, same-Good, grown-Good}

old-refused : (ro : Bool) → ¬ (Accepted (if ro then old_token else unseq_token))
old-refused true a = a
old-refused false a = a

-- What a check of a number makes that was taken before.
abbrev pub Refuses : ℕ → List ℕ → Report → Type 0
Refuses x r out = (¬ (Accepted out.0)) × (out.1 ≡ x ∷ r)

-- `next` is the successor below `mask`, and comes round at `mask`.
module _ (mask : ℕ) (ro full : Bool) (next : ℕ → ℕ) (high : ℕ → Bool)
    (next_low : (x : ℕ) → x < mask → next x ≡ suc x) (next_top : next mask ≡ 0) where
  IsWindow-append :
      (s x : ℕ) (r : List ℕ)
      → IsWindow mask (x ∷ r)
      → s < mask
      → next (newest x r) ≤ s
      → IsWindow mask (x ∷ (r ++ (s ∷ [])))
  IsWindow-append s x [] (inl (e, v)) m n = inl (e, (omega arith, m, tt))
  IsWindow-append s x (y ∷ r) (inl (e, v)) m n =
      let top : newest y r < mask = (newest_bounds mask 0 y r v).2 in
      inl (e, Rising-append mask 0 y s r v (omega (arith, next_low _ top)) m)
  IsWindow-append s x r (inr v) m n =
      let top : newest x r < mask = (newest_bounds mask 0 x r v).2 in
      inr (Rising-append mask 0 x s r v (omega (arith, next_low _ top)) m)

  append-Good :
      (s x : ℕ) (r : List ℕ) (m : Major)
      → IsWindow mask (x ∷ r)
      → s < mask
      → next (newest x r) ≤ s
      → Good mask s x r (m, slide full (x ∷ (r ++ (s ∷ []))))
  append-Good s x r m w b n =
      grown-Good mask full s x r (r ++ (s ∷ [])) m (IsWindow-append s x r w b n) (In-append_new s r)
        (λ h i. In-append h s r i)

  late-Good :
      (s x : ℕ) (r : List ℕ) (p : Place)
      → IsWindow mask (x ∷ r)
      → s < mask
      → find_place s x r ≡ p
      → Good mask s x r (late ro full next high (x ∷ r) p)
  unfolding late
  late-Good s x r found w b e = same-Good mask s x r duplicate_token w (λ a. a)
  late-Good s x r nowhere w b e = same-Good mask s x r failure w (λ a. a)
  late-Good s x [] (placed w2) (inl (q, v)) b e = unfold find_place in absurd (cc)
  late-Good s x (y ∷ r) (placed w2) (inl (q, v)) b e =
      let on : find_place s x (y ∷ r) ≡ keep x (find_place s y r) =
        find_place-on mask s x y r (omega arith) (inl (omega arith)) in
      let (t, e', cons) = keep_placed x (find_place s y r) (sym on ∙ e) in
      let (ins, rising) = find_place-Rising mask s 0 y r t v e' in
      rw cons (
        grown-Good mask full s x (y ∷ r) t _ (inl (q, rising)) (rw (ins.cons) (inr ins.has))
          (λ h i. rw (ins.cons) (keep_In ins h i)))
  late-Good s x r (placed w2) (inr v) b e =
      let (ins, rising) = find_place-Rising mask s 0 x r w2 v e in
      rw (ins.cons)
        (grown-Good mask full s x r ins.tail _ (inr (rw ins.cons at rising)) ins.has ins.keeps)

  pub check-Good :
      (s x : ℕ) (r : List ℕ)
      → IsWindow mask (x ∷ r)
      → s < mask
      → Good mask s x r (check ro full next high s x r)
  unfolding check
  check-Good s x r w b = elim (Bool-cases (s == next (newest x r))) [
    | inl e ↦ rw e (append-Good s x r complete w b (ground arith))
    | inr e ↦ elim (Bool-cases (ltb (next (newest x r)) s)) [
      | inl f ↦ rw (e, f) (append-Good s x r _ w b (ground arith))
      | inr f ↦ elim (Bool-cases (ltb s x && high s)) [
        | inl g ↦ rw (e, f, g) (same-Good mask s x r _ w (old-refused ro))
        | inr g ↦ elim (Bool-cases (s == newest x r)) [
          | inl d ↦ rw (e, f, g, d) (same-Good mask s x r duplicate_token w (λ a. a))
          | inr d ↦ rw (e, f, g, d) (late-Good s x r (find_place s x r) w b refl)
        ]
      ]
    ]
  ]

  late-Refuses :
      (x : ℕ) (r : List ℕ) (p : Place)
      → (p ≡ found) ⊎ (p ≡ nowhere)
      → Refuses x r (late ro full next high (x ∷ r) p)
  unfolding late
  late-Refuses x r found h = (λ a. a, refl)
  late-Refuses x r nowhere h = (λ a. a, refl)
  late-Refuses x r (placed w) (inl e) = absurd (cc)
  late-Refuses x r (placed w) (inr e) = absurd (cc)

  -- Where a recorded number stands: not above the newest, and nowhere that it could be placed.
  Recorded-facts :
      (s x : ℕ) (r : List ℕ)
      → IsWindow mask (x ∷ r)
      → s < mask
      → Recorded mask s (x ∷ r)
      → (s < next (newest x r)) × ((find_place s x r ≡ found) ⊎ (find_place s x r ≡ nowhere))
  Recorded-facts s x [] (inl (q, v)) b (inl (e, m)) = elim m [ ]
  Recorded-facts s x (y ∷ r) (inl (q, v)) b (inl (e, m)) =
      let top : newest y r < mask = (newest_bounds mask 0 y r v).2 in
      (
        omega (arith, next_low _ top, In-le-newest mask s 0 y r v m),
        rw (find_place-on mask s x y r (omega arith) (inl (omega arith)))
            (keep_cases x (find_place-In mask s 0 y r v m)),
      )
  Recorded-facts s x r (inl (q, v)) b (inr (c, m)) = absurd (omega arith)
  Recorded-facts s x r (inr v) b (inl (e, m)) = absurd (omega (arith, v.1))
  Recorded-facts s x r (inr v) b (inr (c, inl l)) =
      let top : newest x r < mask = (newest_bounds mask 0 x r v).2 in
      (
        omega (arith, next_low _ top, newest_bounds mask 0 x r v),
        inr (find_place-below mask s 0 x r v l),
      )
  Recorded-facts s x r (inr v) b (inr (c, inr m)) =
      let top : newest x r < mask = (newest_bounds mask 0 x r v).2 in
      (omega (arith, next_low _ top, In-le-newest mask s 0 x r v m), find_place-In mask s 0 x r v m)

  pub check-Refuses :
      (s x : ℕ) (r : List ℕ)
      → IsWindow mask (x ∷ r)
      → s < mask
      → Recorded mask s (x ∷ r)
      → Refuses x r (check ro full next high s x r)
  unfolding check
  check-Refuses s x r w b k =
      let (below, spot) = Recorded-facts s x r w b k in
      let e : (s == next (newest x r)) ≡ false = ground arith in
      let f : ltb (next (newest x r)) s ≡ false = ground arith in
      elim (Bool-cases (ltb s x && high s)) [
        | inl g ↦ rw (e, f, g) (old-refused ro, refl)
        | inr g ↦ elim (Bool-cases (s == newest x r)) [
          | inl d ↦ rw (e, f, g, d) (λ a. a, refl)
          | inr d ↦ rw (e, f, g, d) (late-Refuses x r (find_place s x r) spot)
        ]
      ]
