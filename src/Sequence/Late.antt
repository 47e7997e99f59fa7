-- ===== src/Sequence/Late.antt =====
-- Numbers that util_ordering.c does not class as its comments say.
use libbrowserid.Prelude.{
  ℕ, suc, ◌+◌, ◌-◌, ◌%◌, ◌^◌, ◌<◌, ◌≤◌, ◌≡◌, refl, sym, ap, ◌∙◌, List, [], ◌∷◌, arith, Bool, true,
  false, not, ◌&&◌, ◌⊎◌, inl, inr, ◌==◌, ltb, replicate,
}
use mathlib.Core.Path.{subst}
use libbrowserid.Sequence.Insert.{view_queue}
use libbrowserid.Gss.{Major, complete, failure}
use libbrowserid.Sequence.{
  Queue, queue_length, replay_only, relative, check_relative, sequence_check, sequence_init, run,
}
use libbrowserid.Sequence.Window.{newest, find_place, nowhere, keep, check}
use libbrowserid.Sequence.Sorted.{newest_bounds, find_place-below, find_place-on}
use libbrowserid.Sequence.Refine.{
  next, high, oldest, newer, report, view_queue-cons, check_relative-refines,
}
use libbrowserid.Sequence.Replay.{IsWindow}
use libbrowserid.Sequence.Once.{
  sequence_check-detects, IsSequence, IsWidth, masked, next_low, window_of,
}

-- Smaller than every number that the window holds, of which there is one.
abbrev pub IsBelow : ℕ → ℕ → List ℕ → Type 0
IsBelow mask s [] = ⊥
IsBelow mask s (x ∷ []) = (x < mask) × (s < x)
IsBelow mask s (x ∷ y ∷ r) = ((x < mask) × (s < x)) ⊎ ((x ≡ mask) × (s < y))

and_false : (b : Bool) → (b && false) ≡ false
and_false true = refl
and_false false = refl

module _ (mask : ℕ) (ro full : Bool) (next : ℕ → ℕ) (high : ℕ → Bool)
    (next_low : (x : ℕ) → x < mask → next x ≡ suc x) where
  low_facts :
      (s x : ℕ) (r : List ℕ)
      → IsWindow mask (x ∷ r)
      → IsBelow mask s (x ∷ r)
      → (s < newest x r) × (newest x r < mask) × (find_place s x r ≡ nowhere)
  low_facts s x [] (inl (e, v)) (b, l) = absurd (omega arith)
  low_facts s x [] (inr v) (b, l) = (l, b, unfold find_place in refl)
  low_facts s x (y ∷ r) (inl (e, v)) (inl (b, l)) = absurd (omega arith)
  low_facts s x (y ∷ r) (inl (e, v)) (inr (e', l)) =
      let n : (0 ≤ newest y r) × (y ≤ newest y r) × (newest y r < mask) =
        newest_bounds mask 0 y r v in
      (
        omega arith,
        n.2,
        find_place-on mask s x y r (omega (arith, v.1)) (inl (omega (arith, v.1)))
            ∙ ap (keep x) (find_place-below mask s 0 y r v l),
      )
  low_facts s x (y ∷ r) (inr v) (inl (b, l)) =
      let n : (0 ≤ newest y r) × (x ≤ newest y r) × (newest y r < mask) =
        newest_bounds mask 0 x (y ∷ r) v in
      (omega arith, n.2, find_place-below mask s 0 x (y ∷ r) v l)
  low_facts s x (y ∷ r) (inr v) (inr (e, l)) = absurd (omega (arith, v.1))

  check-low :
      (s x : ℕ) (r : List ℕ)
      → IsWindow mask (x ∷ r)
      → IsBelow mask s (x ∷ r)
      → high s ≡ false
      → check ro full next high s x r ≡ (failure, x ∷ r)
  unfolding check
  check-low s x r w b h =
      let (l, top, p) = low_facts s x r w b in
      let n : next (newest x r) ≡ suc (newest x r) = next_low _ top in
      let e : (s == next (newest x r)) ≡ false = ground arith in
      let f : ltb (next (newest x r)) s ≡ false = ground arith in
      let d : (s == newest x r) ≡ false = ground arith in rw (e, f, h, and_false (ltb s x), d, p)

-- A number smaller than all that the window holds, and without the highest bit, is answered with
-- GSS_S_FAILURE, by the return that "should never happen": neither as an old token, when it has
-- slid out of the window, nor as an unsequenced one, when it is missing before the first token
-- that came. The window stays as it is.
pub below_window-fails :
    (q : Queue) (s : ℕ)
    → IsSequence q
    → IsBelow q.mask s (view_queue q)
    → high q s ≡ false
    → report (check_relative q s) ≡ (failure, view_queue q)
below_window-fails q s v b h =
    check_relative-refines q s v.valid
    ∙ check-low q.mask (replay_only q) (q.length == queue_length) (next q) (high q)
        (next_low q v.width) s (oldest q) (newer q) (window_of q v)
        (subst (IsBelow q.mask s) (view_queue-cons q v.valid) b) h
    ∙ ap (λ w. (failure, w)) (sym (view_queue-cons q v.valid))

-- A replay-only queue of `n` numbers at the front of the array.
abbrev fresh : ℕ → ℕ → ℕ → List ℕ → Queue
fresh first mask n e = record {
  do_replay = true;
  do_sequence = false;
  start = 0;
  length = n;
  firstnum = first;
  elem = e;
  mask = mask;
}

relative_first : (q : Queue) → IsWidth q.mask → q.firstnum < 2 ^ 64 → relative q q.firstnum ≡ 0
unfolding relative
relative_first q w l =
    let a : (q.firstnum + 2 ^ 64 - q.firstnum) % 2 ^ 64 ≡ 0 = omega arith in
    omega (arith, masked q.mask ((q.firstnum + 2 ^ 64 - q.firstnum) % 2 ^ 64) w)

relative_before :
    (q : Queue)
    → IsWidth q.mask
    → 0 < q.firstnum
    → q.firstnum < 2 ^ 64
    → relative q (q.firstnum - 1) ≡ q.mask
unfolding relative
relative_before q w p l =
    omega (arith, masked q.mask ((q.firstnum - 1 + 2 ^ 64 - q.firstnum) % 2 ^ 64) w)

-- The three checks, by the relative numbers 0, the mask and 0.
zero_accepted :
    (first m : ℕ)
    → IsWidth m
    → check_relative (fresh first m 1 (m ∷ replicate 19 0)) 0
      ≡ (complete, fresh first m 2 (m ∷ replicate 19 0))
unfolding check_relative
zero_accepted first m (inl e) = rw e
zero_accepted first m (inr e) = rw e

before_accepted :
    (first m : ℕ)
    → IsWidth m
    → check_relative (fresh first m 2 (m ∷ replicate 19 0)) m
      ≡ (complete, fresh first m 3 (m ∷ 0 ∷ m ∷ replicate 17 0))
unfolding check_relative
before_accepted first m (inl e) = rw e
before_accepted first m (inr e) = rw e

again_accepted :
    (first m : ℕ)
    → IsWidth m
    → check_relative (fresh first m 3 (m ∷ 0 ∷ m ∷ replicate 17 0)) 0
      ≡ (complete, fresh first m 4 (m ∷ 0 ∷ m ∷ replicate 17 0))
unfolding check_relative
again_accepted first m (inl e) = rw e
again_accepted first m (inr e) = rw e

run_step :
    (q : Queue) (s r : ℕ) (ss : List ℕ) {st : Major} {q' : Queue}
    → (not q.do_replay && not q.do_sequence) ≡ false
    → relative q s ≡ r
    → check_relative q r ≡ (st, q')
    → (run q (s ∷ ss)).0 ≡ st ∷ (run q' ss).0
unfolding run
run_step q s r ss d e c =
    let h : sequence_check q s ≡ check_relative q r =
      sequence_check-detects q s d ∙ ap (check_relative q) e in
    rw (h, c)

three_accepted :
    (first m : ℕ)
    → IsWidth m
    → 0 < first
    → first < 2 ^ 64
    → (run (fresh first m 1 (m ∷ replicate 19 0)) (first ∷ (first - 1) ∷ first ∷ [])).0
      ≡ complete ∷ complete ∷ complete ∷ []
three_accepted first m w p l =
    run_step (fresh first m 1 (m ∷ replicate 19 0)) first 0 _ refl (relative_first _ w l)
      (zero_accepted first m w)
    ∙ ap (◌∷◌ complete) (
        run_step (fresh first m 2 (m ∷ replicate 19 0)) (first - 1) m _ refl
          (relative_before (fresh first m 2 (m ∷ replicate 19 0)) w p l) (before_accepted first m w)
        ∙ ap (◌∷◌ complete) (
            run_step (fresh first m 3 (m ∷ 0 ∷ m ∷ replicate 17 0)) first 0 [] refl
              (relative_first _ w l) (again_accepted first m w)
            ∙ unfold run in refl))

-- In a context that asks for replay detection only, the number before the first one is accepted
-- after the first, and then the first one is accepted again.
pub first_accepted_twice :
    (first : ℕ) (wide : Bool)
    → 0 < first
    → first < 2 ^ 64
    → (run (sequence_init first true false wide) (first ∷ (first - 1) ∷ first ∷ [])).0
      ≡ complete ∷ complete ∷ complete ∷ []
unfolding sequence_init
first_accepted_twice first true p l = three_accepted first (2 ^ 64 - 1) (inl refl) p l
first_accepted_twice first false p l = three_accepted first (2 ^ 32 - 1) (inr refl) p l
