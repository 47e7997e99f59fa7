-- ===== src/Sequence/Replay.antt =====
-- No number is accepted twice: the windows of the specification.
pub mod Check
use libbrowserid.Prelude.{
  ℕ, zero, suc, ◌+◌, ◌-◌, ◌<◌, ◌≤◌, ◌≡◌, ◌≢◌, refl, sym, ap, ◌∙◌, List, [], ◌∷◌, ◌++◌, arith, Bool,
  true, false, ◌&&◌, ◌⊎◌, Bool-cases, inl, inr, ◌==◌, ltb, if◌then◌else◌,
}
use libbrowserid.Gss.{
  Major, complete, gap_token, duplicate_token, old_token, unseq_token, failure, defective_token,
  bad_mech,
}
use libbrowserid.Sequence.Window.{
  newest, slide, Place, found, placed, nowhere, keep, find_place, late, check, Report,
}
use libbrowserid.Sequence.Sorted.{
  In, Rising, In-append, In-append_new, newest_bounds, In-le-newest, Rising-append, find_place-In,
  find_place-below, find_place-on, find_place-Rising, keep_cases, keep_placed, Inserted,
}

-- The statuses with which a token is taken.
abbrev pub Accepted : Major → Type 0
Accepted complete = Unit
Accepted gap_token = Unit
Accepted _ = ⊥

module _ (mask : ℕ) where
  -- A window starts with the number that stands for the one before the first, which is `mask`, or
  -- it has lost it; the other numbers rise and are smaller.
  abbrev pub IsWindow : List ℕ → Type 0
  IsWindow [] = ⊥
  IsWindow (x ∷ r) = ((x ≡ mask) × Rising mask 0 r) ⊎ Rising mask 0 (x ∷ r)

  -- The number was taken: it stands in the window, or has slid out of it.
  abbrev pub Recorded : ℕ → List ℕ → Type 0
  Recorded h [] = ⊥
  Recorded h (x ∷ r) = ((x ≡ mask) × In h r) ⊎ ((x < mask) × ((h < x) ⊎ In h (x ∷ r)))

  slide-IsWindow :
      (full : Bool) (x s : ℕ) (t : List ℕ)
      → In s t
      → IsWindow (x ∷ t)
      → IsWindow (slide full (x ∷ t))
  slide-IsWindow false x s t m w = w
  slide-IsWindow true x s [] m w = elim m [ ]
  slide-IsWindow true x s (y ∷ t) m (inl (e, v)) = inr v
  slide-IsWindow true x s (y ∷ t) m (inr (l, b, v)) = inr (omega arith, v.1, v.2)

  slide-Recorded :
      (full : Bool) (x s h : ℕ) (t : List ℕ)
      → In s t
      → IsWindow (x ∷ t)
      → Recorded h (x ∷ t)
      → Recorded h (slide full (x ∷ t))
  slide-Recorded false x s h t m w k = k
  slide-Recorded true x s h [] m w k = elim m [ ]
  slide-Recorded true x s h (y ∷ t) m (inl (e, v)) (inl (e', k)) = inr (v.1, inr k)
  slide-Recorded true x s h (y ∷ t) m (inl (e, v)) (inr (b, k)) = absurd (omega arith)
  slide-Recorded true x s h (y ∷ t) m (inr (l, b, v)) (inl (e', k)) = absurd (omega arith)
  slide-Recorded true x s h (y ∷ t) m (inr (l, b, v)) (inr (b', inl c)) =
      inr (v.1, inl (omega (arith, v.0)))
  slide-Recorded true x s h (y ∷ t) m (inr (l, b, v)) (inr (b', inr (inl e))) =
      inr (v.1, inl (omega (arith, v.0)))
  slide-Recorded true x s h (y ∷ t) m (inr (l, b, v)) (inr (b', inr (inr k))) = inr (v.1, inr k)

  -- What a check of `s` makes of the window `x ∷ r`.
  pub record Good (s x : ℕ) (r : List ℕ) (out : Report) : Type 0 where
    pub window : IsWindow out.1
    pub kept : (h : ℕ) → Recorded h (x ∷ r) → Recorded h out.1
    pub taken : Accepted out.0 → Recorded s out.1

  pub same-Good :
      (s x : ℕ) (r : List ℕ) (m : Major) → IsWindow (x ∷ r) → ¬ (Accepted m) → Good s x r (m, x ∷ r)
  same-Good s x r m w n = record { window = w; kept = λ h k. k; taken = λ a. absurd (n a) }

  Recorded-tail : (s x : ℕ) (t : List ℕ) → IsWindow (x ∷ t) → In s t → Recorded s (x ∷ t)
  Recorded-tail s x t (inl (e, v)) m = inl (e, m)
  Recorded-tail s x t (inr (l, b, v)) m = inr (b, inr (inr m))

  Recorded-grown :
      (h x : ℕ) (r t : List ℕ) → (In h r → In h t) → Recorded h (x ∷ r) → Recorded h (x ∷ t)
  Recorded-grown h x r t k (inl (e, m)) = inl (e, k m)
  Recorded-grown h x r t k (inr (b, inl l)) = inr (b, inl l)
  Recorded-grown h x r t k (inr (b, inr (inl e))) = inr (b, inr (inl e))
  Recorded-grown h x r t k (inr (b, inr (inr m))) = inr (b, inr (inr (k m)))

  pub grown-Good :
      (full : Bool) (s x : ℕ) (r t : List ℕ) (m : Major)
      → IsWindow (x ∷ t)
      → In s t
      → ((h : ℕ) → In h r → In h t)
      → Good s x r (m, slide full (x ∷ t))
  grown-Good full s x r t m w i k = record {
    window = slide-IsWindow full x s t i w;
    kept = λ h c. slide-Recorded full x s h t i w (Recorded-grown h x r t (k h) c);
    taken = λ a. slide-Recorded full x s s t i w (Recorded-tail s x t w i);
  }
