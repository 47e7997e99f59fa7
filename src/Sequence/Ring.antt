-- ===== src/Sequence/Ring.antt =====
-- The circular array of util_ordering.c as the list of its elements, and the insertion into it.
use libbrowserid.Prelude.{
  ℕ, zero, suc, ◌+◌, ◌-◌, ◌%◌, ◌<◌, ◌≤◌, ◌≡◌, ◌≢◌, refl, ap, ap₂, ◌∙◌, List, [], ◌∷◌, ◌++◌, length,
  length-set, get_or-set_self, get_or-set_ne, arith,
}
use native.Mathlib.Nat.{add-zero, zero-add}
use native.Mathlib.Decide.{ℕ_discrete}
use libbrowserid.Sequence.{queue_length, get_elem, set_elem, shift_up}

-- The `n` elements from index `h` on.
unfoldable pub view : List ℕ → ℕ → ℕ → List ℕ
view e h zero = []
view e h (suc n) = get_elem e h ∷ view e (h + 1) n

pub length-view : (e : List ℕ) (h n : ℕ) → length (view e h n) ≡ n
unfolding view
length-view e h zero = refl
length-view e h (suc n) = ap suc (length-view e (h + 1) n)

pub view-append : (e : List ℕ) (h m n : ℕ) → view e h (m + n) ≡ view e h m ++ view e (h + m) n
unfolding view
view-append e h zero n = rw (zero-add, add-zero)
view-append e h (suc m) n =
    let a : suc m + n ≡ suc (m + n) = omega arith in
    let b : h + suc m ≡ h + 1 + m = omega arith in
    rw (a, b) (ap (λ w. get_elem e h ∷ w) (view-append e (h + 1) m n))

-- Two views agree where their elements do.
pub view_eq :
    (e e' : List ℕ) (h h' n : ℕ)
    → ((i : ℕ) → i < n → get_elem e (h + i) ≡ get_elem e' (h' + i))
    → view e h n ≡ view e' h' n
unfolding view
view_eq e e' h h' zero p = refl
view_eq e e' h h' (suc n) p =
    ap₂ ◌∷◌
      (let a : h + 0 ≡ h = add-zero h in
        let b : h' + 0 ≡ h' = add-zero h' in rw (a, b) at (p 0 (omega arith)))
      (view_eq e e' (h + 1) (h' + 1) n (λ i l.
        let a : h + 1 + i ≡ h + suc i = omega arith in
        let b : h' + 1 + i ≡ h' + suc i = omega arith in rw (a, b) (p (suc i) (omega arith))))

pub length-shift_up : (n i : ℕ) (e : List ℕ) → length (shift_up n i e) ≡ length e
unfolding shift_up
length-shift_up zero i e = refl
length-shift_up (suc n) i e =
    length-shift_up n (i - 1) (set_elem e (i + 1) (get_elem e i)) ∙ length-set e _ _

pub get-set_self :
    (e : List ℕ) (i j v : ℕ)
    → length e ≡ queue_length
    → i % queue_length ≡ j % queue_length
    → get_elem (set_elem e i v) j ≡ v
get-set_self e i j v l h = rw (← h) (get_or-set_self e (i % queue_length) v 0 (omega arith))

pub get-set_ne :
    (e : List ℕ) (i j v : ℕ)
    → i % queue_length ≢ j % queue_length
    → get_elem (set_elem e i v) j ≡ get_elem e j
get-set_ne e i j v h = get_or-set_ne e (i % queue_length) (j % queue_length) v 0 h

-- Outside the moved elements nothing changes. `p` counts from behind the last round's slot.
pub shift_up_outside :
    (n i p : ℕ) (e : List ℕ)
    → n ≤ i
    → i + 1 < p
    → p + n ≤ i + 21
    → get_elem (shift_up n i e) p ≡ get_elem e p
unfolding shift_up
shift_up_outside zero i p e h l u = refl
shift_up_outside (suc n) i p e h l u =
    shift_up_outside n (i - 1) p _ (omega arith) (omega arith) (omega arith)
    ∙ get-set_ne e (i + 1) p (get_elem e i) (omega arith)

-- The moved elements stand one slot further up.
pub shift_up_inside :
    (n i p : ℕ) (e : List ℕ)
    → length e ≡ queue_length
    → n ≤ i
    → n ≤ 19
    → i + 1 < p + n
    → p ≤ i + 1
    → get_elem (shift_up n i e) p ≡ get_elem e (p - 1)
unfolding shift_up
shift_up_inside zero i p e le h s l u = absurd (omega arith)
shift_up_inside (suc n) i p e le h s l u = elim (ℕ_discrete p (i + 1)) [
  | yes top ↦ rw top (
      shift_up_outside n (i - 1) (i + 1) e' (omega arith) (omega arith) (omega arith)
      ∙ get-set_self e (i + 1) (i + 1) (get_elem e i) le refl
      ∙ ap (get_elem e) (let k : i ≡ i + 1 - 1 = omega arith in k))
  | no low ↦
      shift_up_inside n (i - 1) p e' (length-set e _ _ ∙ le) (omega arith) (omega arith)
        (omega arith) (omega arith)
      ∙ get-set_ne e (i + 1) (p - 1) (get_elem e i) (omega arith)
]
  where
    e' : List ℕ
    e' = set_elem e (i + 1) (get_elem e i)
