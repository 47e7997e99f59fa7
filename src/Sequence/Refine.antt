-- ===== src/Sequence/Refine.antt =====
-- `sequenceCheck` behaves as the check of a list of numbers.
use Prim.Native.Nat.{bit_and}
use libbrowserid.Prelude.{
  ℕ, zero, suc, ◌+◌, ◌-◌, ◌/◌, ◌^◌, ◌%◌, ◌<◌, ◌≤◌, ◌≡◌, refl, sym, ap, ◌∙◌, List, [], ◌∷◌, ◌++◌,
  arith, Bool, true, false, not, ◌&&◌, Bool-cases, inl, inr, ◌==◌, ltb, if◌then◌else◌,
}
use libbrowserid.Gss.{Major, complete, gap_token, duplicate_token, old_token, unseq_token}
use libbrowserid.Sequence.{
  Queue, queue_length, get_elem, queue_insert, last_index, Scan, duplicate, behind, absent, scan,
  replay_only, relative, expected, is_old, place, check_relative, sequence_check,
}
use libbrowserid.Sequence.Ring.{view}
use libbrowserid.Sequence.Insert.{
  IsValid, view_queue, view-queue_insert, queue_insert-IsValid, view-suc,
}
use libbrowserid.Sequence.Window.{
  slide, newest, Place, found, placed, nowhere, keep, find_place, late, check, Report,
}

newest-view : (e : List ℕ) (h n : ℕ) → newest (get_elem e h) (view e (h + 1) n) ≡ get_elem e (h + n)
unfolding view
newest-view e h zero = ap (get_elem e) (let k : h ≡ h + 0 = omega arith in k)
newest-view e h (suc n) =
    newest-view e (h + 1) n ∙ ap (get_elem e) (let k : h + 1 + n ≡ h + suc n = omega arith in k)

-- What the loop finds, as a place in the window of the `n + 1` elements from `i` on.
abbrev render : List ℕ → ℕ → ℕ → ℕ → Scan → Place
render e s i n duplicate = found
render e s i n absent = nowhere
render e s i n (behind k) = placed (view e i (suc (k - i)) ++ (s ∷ view e (k + 1) (n - (k - i))))

abbrev InRange : ℕ → ℕ → Scan → Type 0
InRange i n (behind k) = (i ≤ k) × (k < i + n)
InRange i n _ = Unit

InRange-suc : (i n : ℕ) (r : Scan) → InRange (i + 1) n r → InRange i (suc n) r
InRange-suc i n duplicate h = tt
InRange-suc i n (behind k) h = omega arith
InRange-suc i n absent h = tt

scan-InRange : (n i : ℕ) (e : List ℕ) (s : ℕ) → InRange i n (scan n i e s)
unfolding scan
scan-InRange zero i e s = tt
scan-InRange (suc n) i e s = elim (Bool-cases (s == get_elem e i)) [
  | inl same ↦ rw same tt
  | inr other ↦ elim (Bool-cases (ltb (get_elem e i) s && ltb s (get_elem e (i + 1)))) [
    | inl here ↦ rw (other, here) (omega arith)
    | inr on ↦ rw (other, on) (InRange-suc i n _ (scan-InRange n (i + 1) e s))
  ]
]

keep-render :
    (e : List ℕ) (s i n : ℕ) (r : Scan)
    → InRange (i + 1) n r
    → keep (get_elem e i) (render e s (i + 1) n r) ≡ render e s i (suc n) r
unfolding view
keep-render e s i n duplicate h = refl
keep-render e s i n absent h = refl
keep-render e s i n (behind k) h =
    let a : k - i ≡ suc (k - (i + 1)) = omega arith in
    let b : suc n - suc (k - (i + 1)) ≡ n - (k - (i + 1)) = omega arith in rw (a, b)

render-here :
    (e : List ℕ) (s i n : ℕ)
    → placed (get_elem e i ∷ s ∷ view e (i + 1) (suc n)) ≡ render e s i (suc n) (behind i)
unfolding view
render-here e s i n =
    let a : i - i ≡ 0 = omega arith in let b : suc n - 0 ≡ suc n = omega arith in rw (a, b)

scan_on :
    (n i : ℕ) (e : List ℕ) (s : ℕ)
    → (s == get_elem e i) ≡ false
    → (ltb (get_elem e i) s && ltb s (get_elem e (i + 1))) ≡ false
    → keep (get_elem e i) (find_place s (get_elem e (i + 1)) (view e (i + 1 + 1) n))
      ≡ render e s i (suc n) (scan n (i + 1) e s)
    → find_place s (get_elem e i) (view e (i + 1) (suc n))
      ≡ render e s i (suc n) (scan (suc n) i e s)
unfolding find_place scan
scan_on n i e s other on h = rw (view-suc e (i + 1) n, other, on) h

-- The loop of rules 4 and 5 is the search of the list.
find_place-scan :
    (n i : ℕ) (e : List ℕ) (s : ℕ)
    → find_place s (get_elem e i) (view e (i + 1) n) ≡ render e s i n (scan n i e s)
find_place-scan zero i e s = unfold find_place scan view in refl
find_place-scan (suc n) i e s = elim (Bool-cases (s == get_elem e i)) [
  | inl same ↦ unfold find_place scan in rw (view-suc, same)
  | inr other ↦ elim (Bool-cases (ltb (get_elem e i) s && ltb s (get_elem e (i + 1)))) [
    | inl here ↦
        unfold find_place scan in
        rw (view-suc, other, here) (rw (← view-suc e (i + 1) n) (render-here e s i n))
    | inr on ↦ scan_on n i e s other on (
        ap (keep (get_elem e i)) (find_place-scan n (i + 1) e s)
        ∙ keep-render e s i n _ (scan-InRange n (i + 1) e s))
  ]
]

-- What the check of a list needs to know of the queue.
abbrev pub next : Queue → ℕ → ℕ
next q x = bit_and ((x + 1) % 2 ^ 64) q.mask

abbrev pub high : Queue → ℕ → Bool
high q s = not (bit_and s ((1 + q.mask / 2) % 2 ^ 64) == 0)

abbrev pub oldest : Queue → ℕ
oldest q = get_elem q.elem q.start

abbrev pub newer : Queue → List ℕ
newer q = view q.elem (q.start + 1) (q.length - 1)

abbrev pub report : Major × Queue → Report
report (m, q) = (m, view_queue q)

pub view_queue-cons : (q : Queue) → IsValid q → view_queue q ≡ oldest q ∷ newer q
view_queue-cons q v =
    ap (view q.elem q.start) (let k : q.length ≡ suc (q.length - 1) = omega arith in k)
    ∙ view-suc q.elem q.start (q.length - 1)

newest_eq : (q : Queue) → IsValid q → newest (oldest q) (newer q) ≡ get_elem q.elem (last_index q)
newest_eq q v =
    newest-view q.elem q.start (q.length - 1)
    ∙ ap (get_elem q.elem)
        (let k : q.start + (q.length - 1) ≡ q.start + q.length - 1 = omega arith in k)

view-zero : (e : List ℕ) (h : ℕ) → view e h 0 ≡ []
unfolding view
view-zero e h = refl

view-queue_append :
    (q : Queue) (s : ℕ)
    → IsValid q
    → view_queue (queue_insert q (last_index q) s)
      ≡ slide (q.length == queue_length) (oldest q ∷ (newer q ++ (s ∷ [])))
view-queue_append q s v =
    let a : q.start + (q.length - 1) ≡ last_index q = omega arith in
    let c : q.length - 1 - (q.length - 1) ≡ 0 = omega arith in
    ap (λ i. view_queue (queue_insert q i s)) (sym a)
    ∙ view-queue_insert q (q.length - 1) s v (omega arith)
    ∙ rw (c, view-suc, view-zero)

place-late :
    (q : Queue) (s : ℕ) (r : Scan)
    → IsValid q
    → InRange q.start (q.length - 1) r
    → report (place q s r)
      ≡ late
          (replay_only q)
          (q.length == queue_length)
          (next q)
          (high q)
          (view_queue q)
          (render q.elem s q.start (q.length - 1) r)
unfolding place late
place-late q s duplicate v h = refl
place-late q s absent v h = refl
place-late q s (behind k) v h =
    let a : q.start + (k - q.start) ≡ k = omega arith in
    ap (λ w. (if replay_only q then complete else unseq_token, w))
      (ap (λ i. view_queue (queue_insert q i s)) (sym a)
        ∙ view-queue_insert q (k - q.start) s v (omega arith)
        ∙ rw a)

late_eq :
    (q : Queue) (s : ℕ)
    → IsValid q
    → report (place q s (scan (q.length - 1) q.start q.elem s))
      ≡ late
          (replay_only q)
          (q.length == queue_length)
          (next q)
          (high q)
          (oldest q ∷ newer q)
          (find_place s (oldest q) (newer q))
late_eq q s v =
    rw (find_place-scan (q.length - 1) q.start q.elem s, ← view_queue-cons q v)
      (place-late q s _ v (scan-InRange (q.length - 1) q.start q.elem s))

-- The rules of `sequenceCheck` are the check of the list of the queue's numbers.
pub check_relative-refines :
    (q : Queue) (s : ℕ)
    → IsValid q
    → report (check_relative q s)
      ≡ check (replay_only q) (q.length == queue_length) (next q) (high q) s (oldest q) (newer q)
unfolding check_relative expected is_old check
check_relative-refines q s v = rw (newest_eq q v) (elim (Bool-cases (s == next q top)) [
  | inl a ↦ rw a (ap (λ w. (complete, w)) (view-queue_append q s v))
  | inr a ↦ elim (Bool-cases (ltb (next q top) s)) [
    | inl b ↦
        rw (a, b)
          (ap (λ w. (if replay_only q then complete else gap_token, w)) (view-queue_append q s v))
    | inr b ↦ elim (Bool-cases (ltb s (oldest q) && high q s)) [
      | inl c ↦
          rw (a, b, c)
            (ap (λ w. (if replay_only q then old_token else unseq_token, w)) (view_queue-cons q v))
      | inr c ↦ elim (Bool-cases (s == top)) [
        | inl d ↦ rw (a, b, c, d) (ap (λ w. (duplicate_token, w)) (view_queue-cons q v))
        | inr d ↦ rw (a, b, c, d) (late_eq q s v)
      ]
    ]
  ]
])
  where
    top : ℕ
    top = get_elem q.elem (last_index q)

-- On a queue that keeps its invariant, `sequenceCheck` reports of a number what the check
-- of the list of the queue's numbers reports of the number relative to the first one, and leaves the
-- numbers that the list is left with; without replay and sequence detection every number is
-- GSS_S_COMPLETE and the numbers stay. The circular array and the moving of its elements are an
-- implementation of that list.
pub sequence_check-refines :
    (q : Queue) (seqnum : ℕ)
    → IsValid q
    → report (sequence_check q seqnum) ≡ (
        if not q.do_replay && not q.do_sequence
        then (complete, oldest q ∷ newer q)
        else check
            (replay_only q)
            (q.length == queue_length)
            (next q)
            (high q)
            (relative q seqnum)
            (oldest q)
            (newer q))
unfolding sequence_check
sequence_check-refines q seqnum v = elim (Bool-cases (not q.do_replay && not q.do_sequence)) [
  | inl off ↦ rw off (ap (λ w. (complete, w)) (view_queue-cons q v))
  | inr on ↦ rw on (check_relative-refines q (relative q seqnum) v)
]

if-keeps :
    (P : Queue → Type 0) (b : Bool) (m n : Major × Queue) → P m.1 → P n.1 → P (if b then m else n).1
if-keeps P true m n h k = h
if-keeps P false m n h k = k

place-keeps :
    (P : Queue → Type 0) (q : Queue) (s : ℕ) (r : Scan)
    → P q
    → ((after : ℕ) → P (queue_insert q after s))
    → P (place q s r).1
unfolding place
place-keeps P q s duplicate h k = h
place-keeps P q s (behind i) h k = k i
place-keeps P q s absent h k = h

-- A check leaves the queue alone or inserts the number.
pub check_relative-keeps :
    (P : Queue → Type 0) (q : Queue) (s : ℕ)
    → P q
    → ((after : ℕ) → P (queue_insert q after s))
    → P (check_relative q s).1
unfolding check_relative
check_relative-keeps P q s h k =
    if-keeps P (s == expected q) (complete, queue_insert q (last_index q) s) _ (k (last_index q))
      (if-keeps P (ltb (expected q) s) (_, queue_insert q (last_index q) s) _ (k (last_index q))
        (if-keeps P (is_old q s) (_, q) _ h
          (if-keeps P (s == get_elem q.elem (last_index q)) (_, q) _ h
            (place-keeps P q s (scan (q.length - 1) q.start q.elem s) h k))))

pub check_relative-IsValid : (q : Queue) (s : ℕ) → IsValid q → IsValid (check_relative q s).1
check_relative-IsValid q s v =
    check_relative-keeps IsValid q s v (λ after. queue_insert-IsValid q after s v)
