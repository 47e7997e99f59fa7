-- ===== src/Json/Model.antt =====
-- A small implementation of the JSON library, with the laws. It shows that the laws can hold.
use mathlib.Core.Path.{subst}
use libbrowserid.Prelude.{
  ℕ, ◌≡◌, ◌≢◌, refl, sym, ap, ◌∙◌, false, true, List, [], ◌∷◌, Option, none, some, Bool-cases, inl,
  inr, if◌then◌else◌,
}
use libbrowserid.Prelude.Int.{ℤ, pos}
use libbrowserid.Spn.{str_eq}
use libbrowserid.Spn.Strings.{str_eq_iff}
use libbrowserid.Json.{Jansson, IsJansson}

mutual
  pub data Value : Type 0 where
    text : List ℕ → Value
    number : ℤ → Value
    items : Values → Value
    members : Members → Value

  pub data Values : Type 0 where
    nil : Values
    cons : Value → Values → Values

  pub data Members : Type 0 where
    end : Members
    member : List ℕ → Value → Members → Members

abbrev pub lookup : List ℕ → Members → Option Value
lookup k end = none
lookup k (member l v ms) = let rest = lookup k ms in if str_eq k l then some v else rest

abbrev remove : List ℕ → Members → Members
remove k end = end
remove k (member l v ms) = let rest = remove k ms in if str_eq k l then rest else member l v rest

abbrev pub to_list : Values → List Value
to_list nil = []
to_list (cons v vs) = v ∷ to_list vs

abbrev from_list : List Value → Values
from_list [] = nil
from_list (v ∷ vs) = cons v (from_list vs)

to_list-from_list : (vs : List Value) → to_list (from_list vs) ≡ vs
to_list-from_list [] = refl
to_list-from_list (v ∷ vs) = ap (◌∷◌ v) (to_list-from_list vs)

abbrev get_member : Value → List ℕ → Option Value
get_member (members ms) k = lookup k ms
get_member _ k = none

abbrev set_member : Value → List ℕ → Value → Option Value
set_member (members ms) k v = some (members (member k v ms))
set_member _ k v = none

abbrev delete_present : List ℕ → Members → Option Value → Option Value
delete_present k ms none = none
delete_present k ms (some _) = some (members (remove k ms))

abbrev delete_member : Value → List ℕ → Option Value
delete_member (members ms) k = delete_present k ms (lookup k ms)
delete_member _ k = none

abbrev text_of : Value → Option (List ℕ)
text_of (text s) = some s
text_of _ = none

abbrev number_of : Value → ℤ
number_of (number z) = z
number_of _ = pos 0

abbrev items_of : Value → Option (List Value)
items_of (items vs) = some (to_list vs)
items_of _ = none

abbrev pub model : Jansson
model = record {
  json = Value;
  object_get = get_member;
  object_set = set_member;
  object_del = delete_member;
  string = λ s. some (text s);
  string_value = text_of;
  integer = number;
  integer_value = number_of;
  array = λ vs. items (from_list vs);
  array_items = items_of;
  object = some (members end);
  copy = some;
}

own : (k : List ℕ) (v : Value) (ms : Members) → lookup k (member k v ms) ≡ some v
own k v ms = rw ((str_eq_iff k k).1 refl) refl

other : (k l : List ℕ) (v : Value) (ms : Members) → k ≢ l → lookup l (member k v ms) ≡ lookup l ms
other k l v ms ne = elim (Bool-cases (str_eq l k)) [
  | inl same ↦ absurd (ne (sym ((str_eq_iff l k).0 same)))
  | inr differ ↦ rw differ refl
]

get-set : (o o' v : Value) (k : List ℕ) → set_member o k v ≡ some o' → get_member o' k ≡ some v
get-set (members ms) o' v k e =
    let same : members (member k v ms) ≡ o' = cc in
    subst (λ o. get_member o k ≡ some v) same (own k v ms)
get-set (text _) o' v k e = cc
get-set (number _) o' v k e = cc
get-set (items _) o' v k e = cc

get-set_ne :
    (o o' v : Value) (k l : List ℕ)
    → k ≢ l
    → set_member o k v ≡ some o'
    → get_member o' l ≡ get_member o l
get-set_ne (members ms) o' v k l ne e =
    let same : members (member k v ms) ≡ o' = cc in
    subst (λ o. get_member o l ≡ lookup l ms) same (other k l v ms ne)
get-set_ne (text _) o' v k l ne e = cc
get-set_ne (number _) o' v k l ne e = cc
get-set_ne (items _) o' v k l ne e = cc

removed : (k : List ℕ) (ms : Members) → lookup k (remove k ms) ≡ none
removed k end = refl
removed k (member l v ms) = elim (Bool-cases (str_eq k l)) [
  | inl same ↦ rw same (removed k ms)
  | inr differ ↦ rw (differ, differ) (removed k ms)
]

kept : (k l : List ℕ) (ms : Members) → k ≢ l → lookup l (remove k ms) ≡ lookup l ms
kept k l end ne = refl
kept k l (member m v ms) ne = elim (Bool-cases (str_eq k m)) [
  | inl same ↦ let differ : str_eq l m ≡ false = differs same in rw (same, differ) (kept k l ms ne)
  | inr differ ↦ rw differ (ap (λ r. if str_eq l m then some v else r) (kept k l ms ne))
]
  where
    differs : str_eq k m ≡ true → str_eq l m ≡ false
    differs same = elim (Bool-cases (str_eq l m)) [
      | inl also ↦ absurd (ne ((str_eq_iff k m).0 same ∙ sym ((str_eq_iff l m).0 also)))
      | inr differ ↦ differ
    ]

none≢some : {v : Value} → none ≢ some v
none≢some e = cc

absent : (o : Value) (k : List ℕ) → some (members end) ≡ some o → get_member o k ≡ none
absent o k e = let same : members end ≡ o = cc in subst (λ x. get_member x k ≡ none) same refl

abbrev get_or_self : Value → Option Value → List ℕ → Option Value
get_or_self o none k = get_member o k
get_or_self o (some v) k = get_member v k

get-del :
    (o v : Value) (k : List ℕ)
    → get_member o k ≡ some v
    → (o' : Value) × (delete_member o k ≡ some o')
      × (get_member o' k ≡ none)
      × ((l : List ℕ) → k ≢ l → get_member o' l ≡ get_member o l)
get-del (members ms) v k e =
    (members (remove k ms), ap (delete_present k ms) e, removed k ms, λ l ne. kept k l ms ne)
get-del (text _) v k e = absurd (none≢some e)
get-del (number _) v k e = absurd (none≢some e)
get-del (items _) v k e = absurd (none≢some e)

del_absent : (o : Value) (k : List ℕ) → get_member o k ≡ none → delete_member o k ≡ none
del_absent (members ms) k e = ap (delete_present k ms) e
del_absent (text _) k e = refl
del_absent (number _) k e = refl
del_absent (items _) k e = refl

pub model-IsJansson : IsJansson model
model-IsJansson = record {
  get-set = get-set;
  get-set_ne = get-set_ne;
  string-ascii = λ s h. (text s, refl, refl);
  integer_value-integer = λ z h. refl;
  array_items-array = λ vs. ap some (to_list-from_list vs);
  get-object = λ o k e. absent o k e;
  get-copy = λ o o' k e. sym (ap (λ r. get_or_self o r k) e);
  get-del = get-del;
  del_absent = del_absent;
}
