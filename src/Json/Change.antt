-- ===== src/Json/Change.antt =====
-- What a change of an object that succeeds leaves under each key.
use libbrowserid.Prelude.{
  ℕ, ◌≡◌, ◌≢◌, refl, sym, ap, ◌∙◌, Bool, true, false, List, Option, none, some, Bool-cases,
  Option-cases, inl, inr, if◌then◌else◌,
}
use libbrowserid.Status.{good, BidError, ok}
use libbrowserid.Spn.{str_eq}
use libbrowserid.Spn.Strings.{str_eq_iff}
use libbrowserid.Json.{Jansson, IsJansson, stored, put, json_object_set, json_object_del}
use libbrowserid.Json.Access.{json_object_set-Updated}

pub distinct : (k l : List ℕ) → str_eq k l ≡ false → k ≢ l
distinct k l differ e = let c : true ≡ false = sym ((str_eq_iff k l).1 e) ∙ differ in cc

pub stored-good :
    (J : Jansson) (r : BidError × J.json) (o : J.json) → stored J r ≡ good o → r ≡ (ok, o)
stored-good J (ok, o') o h = ap (λ x. (ok, x)) (let c : o' ≡ o = cc in c)
stored-good J (e, o') o h = absurd cc

-- Deleting a member that need not be there.
pub deleted :
    (J : Jansson) (L : IsJansson J) (o : J.json) (l : List ℕ)
    → (o' : J.json) × (json_object_del J o l false ≡ (ok, o'))
      × ((k : List ℕ) → J.object_get o' k ≡ (if str_eq k l then none else J.object_get o k))
unfolding json_object_del
deleted J L o l = elim (Option-cases (J.object_get o l)) [
  | inl absent ↦ (
    o,
    rw (json_object_del, L.del_absent o l absent) refl,
    λ k. sym (same_or k o absent (λ ne. refl)),
  )
  | inr (v, e) ↦
      let (o', d, gone, other) = L.get-del o v l e in
      (o', rw (json_object_del, d) refl, λ k. sym (same_or k o' gone (λ ne. other k ne)))
]
  where
    same_or :
        (k : List ℕ) (o' : J.json)
        → J.object_get o' l ≡ none
        → (l ≢ k → J.object_get o' k ≡ J.object_get o k)
        → (if str_eq k l then none else J.object_get o k) ≡ J.object_get o' k
    same_or k o' gone other = elim (Bool-cases (str_eq k l)) [
      | inl same ↦ rw same (sym gone ∙ ap (J.object_get o') (sym ((str_eq_iff k l).0 same)))
      | inr differ ↦ rw differ (
          sym (other (λ e. let c : true ≡ false = sym ((str_eq_iff k l).1 (sym e)) ∙ differ in cc)))
    ]

module _ (J : Jansson) (L : IsJansson J) where
  -- What is under the other keys stays.
  pub put_elsewhere :
      (o o' : J.json) (k l : List ℕ) (v : Option J.json) (required : Bool)
      → k ≢ l
      → put J o k v required ≡ good o'
      → J.object_get o' l ≡ J.object_get o l
  unfolding json_object_set
  put_elsewhere o o' k l none true ne h = absurd cc
  put_elsewhere o o' k l none false ne h =
      let (x, d, values) = deleted J L o k in
      let same : x ≡ o' = (let q : good x ≡ good o' = sym (ap (stored J) d) ∙ h in cc) in
      ap (λ y. J.object_get y l) (sym same)
      ∙ values l
      ∙ ap (λ b. if b then none else J.object_get o l) (differs (str_eq_iff l k).0)
    where
      differs : (str_eq l k ≡ true → l ≡ k) → str_eq l k ≡ false
      differs same = elim (Bool-cases (str_eq l k)) [
        | inl also ↦ absurd (ne (sym (same also)))
        | inr differ ↦ differ
      ]
  put_elsewhere o o' k l (some v) required ne h =
      (json_object_set-Updated J L o o' v k required (stored-good J _ o' h)).elsewhere l ne

  -- A value that is required is there.
  pub put_required :
      (o o' : J.json) (k : List ℕ) (v : Option J.json)
      → put J o k v true ≡ good o'
      → J.object_get o' k ≡ v
  unfolding json_object_set
  put_required o o' k none h = absurd cc
  put_required o o' k (some v) h =
      (json_object_set-Updated J L o o' v k true (stored-good J _ o' h)).here
