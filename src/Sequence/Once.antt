-- ===== src/Sequence/Once.antt =====
-- The guarantee of util_ordering.c: a token's sequence number is accepted at most once.
use Prim.Native.Nat.{bit_and}
use libbrowserid.Prelude.{
  ℕ, suc, ◌+◌, ◌-◌, ◌%◌, ◌^◌, ◌<◌, ◌≤◌, ◌≡◌, ◌≢◌, refl, sym, ◌∙◌, ◌∷◌, arith, false, not, ◌&&◌, ◌⊎◌,
  Bool-cases, inl, inr, ◌==◌,
}
use mathlib.Core.Path.{subst}
use libbrowserid.Prelude.Bits.{bit_and-ones}
use libbrowserid.Sequence.{
  Queue, queue_length, queue_insert, replay_only, relative, check_relative, sequence_check,
}
use libbrowserid.Sequence.Insert.{IsValid, view_queue}
use libbrowserid.Sequence.Refine.{
  next, high, oldest, newer, report, view_queue-cons, check_relative-refines, check_relative-keeps,
  check_relative-IsValid,
}
use libbrowserid.Sequence.Replay.{Accepted, IsWindow, Recorded, Good}
use libbrowserid.Sequence.Replay.Check.{check-Good, check-Refuses, Refuses}

-- The two widths of sequence numbers.
abbrev pub IsWidth : ℕ → Type 0
IsWidth m = (m ≡ 2 ^ 64 - 1) ⊎ (m ≡ 2 ^ 32 - 1)

-- What `sequenceInit` sets up and `sequenceCheck` keeps, for a context that asks for replay or
-- sequence detection.
pub record IsSequence (q : Queue) : Type 0 where
  pub valid : IsValid q
  pub detects : (not q.do_replay && not q.do_sequence) ≡ false
  pub width : IsWidth q.mask
  pub rising : IsWindow q.mask (view_queue q)

mask64 : (a : ℕ) → bit_and a (2 ^ 64 - 1) ≡ a % 2 ^ 64
mask64 a = bit_and-ones 64 a

mask32 : (a : ℕ) → bit_and a (2 ^ 32 - 1) ≡ a % 2 ^ 32
mask32 a = bit_and-ones 32 a

pub masked :
    (m a : ℕ)
    → IsWidth m
    → ((m ≡ 2 ^ 64 - 1) × (bit_and a m ≡ a % 2 ^ 64))
      ⊎ ((m ≡ 2 ^ 32 - 1) × (bit_and a m ≡ a % 2 ^ 32))
masked m a (inl e) = inl (e, rw e (mask64 a))
masked m a (inr e) = inr (e, rw e (mask32 a))

pub next_low : (q : Queue) → IsWidth q.mask → (x : ℕ) → x < q.mask → next q x ≡ suc x
next_low q w x l = omega (arith, masked q.mask ((x + 1) % 2 ^ 64) w)

next_top : (q : Queue) → IsWidth q.mask → next q q.mask ≡ 0
next_top q w = omega (arith, masked q.mask ((q.mask + 1) % 2 ^ 64) w)

relative-le : (q : Queue) (s : ℕ) → IsWidth q.mask → relative q s ≤ q.mask
unfolding relative
relative-le q s w = omega (arith, masked q.mask ((s + 2 ^ 64 - q.firstnum) % 2 ^ 64) w)

-- What a check leaves alone.
pub record Same (q q' : Queue) : Type 0 where
  pub mask : q'.mask ≡ q.mask
  pub firstnum : q'.firstnum ≡ q.firstnum
  pub do_replay : q'.do_replay ≡ q.do_replay
  pub do_sequence : q'.do_sequence ≡ q.do_sequence

pub Same-trans : {a b c : Queue} → Same a b → Same b c → Same a c
Same-trans h k = record {
  mask = k.mask ∙ h.mask;
  firstnum = k.firstnum ∙ h.firstnum;
  do_replay = k.do_replay ∙ h.do_replay;
  do_sequence = k.do_sequence ∙ h.do_sequence;
}

queue_insert-Same : (q : Queue) (after s : ℕ) → Same q (queue_insert q after s)
unfolding queue_insert
queue_insert-Same q after s = elim (Bool-cases (q.length == queue_length)) [
  | inl e ↦ rw e (record { mask = refl; firstnum = refl; do_replay = refl; do_sequence = refl })
  | inr e ↦ rw e (record { mask = refl; firstnum = refl; do_replay = refl; do_sequence = refl })
]

check_relative-Same : (q : Queue) (s : ℕ) → Same q (check_relative q s).1
check_relative-Same q s =
    check_relative-keeps (Same q) q s
      (record { mask = refl; firstnum = refl; do_replay = refl; do_sequence = refl })
      (λ after. queue_insert-Same q after s)

pub relative-Same : (q q' : Queue) (s : ℕ) → Same q q' → relative q' s ≡ relative q s
unfolding relative
relative-Same q q' s h = rw (h.mask, h.firstnum)

-- With detection asked for, a check is one of the relative number.
pub sequence_check-detects :
    (q : Queue) (s : ℕ)
    → (not q.do_replay && not q.do_sequence) ≡ false
    → sequence_check q s ≡ check_relative q (relative q s)
sequence_check-detects q s d = unfold sequence_check in rw d

pub window_of : (q : Queue) → IsSequence q → IsWindow q.mask (oldest q ∷ newer q)
window_of q v = rw (view_queue-cons q v.valid) at v.rising

relative-lt : (q : Queue) (s : ℕ) → IsSequence q → relative q s ≢ q.mask → relative q s < q.mask
relative-lt q s v ne = omega (arith, relative-le q s v.width)

-- The check as one of a window, of a number that is not the one before the first.
step-Good :
    (q : Queue) (s : ℕ)
    → IsSequence q
    → relative q s ≢ q.mask
    → Good q.mask (relative q s) (oldest q) (newer q) (report (check_relative q (relative q s)))
step-Good q s v ne = rw (check_relative-refines q (relative q s) v.valid) (
    check-Good q.mask (replay_only q) (q.length == queue_length) (next q) (high q)
      (next_low q v.width) (next_top q v.width) (relative q s) (oldest q) (newer q) (window_of q v)
      (relative-lt q s v ne))

check_relative-IsSequence :
    (q : Queue) (s : ℕ)
    → IsSequence q
    → relative q s ≢ q.mask
    → IsSequence (check_relative q (relative q s)).1
check_relative-IsSequence q s v ne =
    let q' : Queue = (check_relative q (relative q s)).1 in
    let h : Same q q' = check_relative-Same q (relative q s) in
    record {
      valid = check_relative-IsValid q (relative q s) v.valid;
      detects = rw (h.do_replay, h.do_sequence) v.detects;
      width = rw (h.mask) v.width;
      rising = rw (h.mask) ((step-Good q s v ne).window);
    }

-- `sequenceCheck` keeps the invariant of the queue (its window is strictly increasing, after the
-- initial element), for every number but the one before the first, whose relative number is the mask.
pub sequence_check-IsSequence :
    (q : Queue) (s : ℕ) → IsSequence q → relative q s ≢ q.mask → IsSequence (sequence_check q s).1
sequence_check-IsSequence q s v ne =
    rw (sequence_check-detects q s v.detects) (check_relative-IsSequence q s v ne)

pub sequence_check-Same : (q : Queue) (s : ℕ) → IsSequence q → Same q (sequence_check q s).1
sequence_check-Same q s v =
    rw (sequence_check-detects q s v.detects) (check_relative-Same q (relative q s))

-- The number `r`, relative to the first, was taken by the queue.
pub Taken : ℕ → Queue → Type 0
Taken r q = Recorded q.mask r (view_queue q)

pub sequence_check-Taken :
    (q : Queue) (s r : ℕ)
    → IsSequence q
    → relative q s ≢ q.mask
    → Taken r q
    → Taken r (sequence_check q s).1
unfolding Taken
sequence_check-Taken q s r v ne t = rw (sequence_check-detects q s v.detects) (
    rw ((check_relative-Same q (relative q s)).mask)
      ((step-Good q s v ne).kept r (rw (view_queue-cons q v.valid) at t)))

pub Accepted-Taken :
    (q : Queue) (s : ℕ)
    → IsSequence q
    → relative q s ≢ q.mask
    → Accepted (sequence_check q s).0
    → Taken (relative q s) (sequence_check q s).1
unfolding Taken
Accepted-Taken q s v ne a = rw (sequence_check-detects q s v.detects) (
    rw ((check_relative-Same q (relative q s)).mask)
      ((step-Good q s v ne).taken (rw (sequence_check-detects q s v.detects) at a)))

pub Taken-refused :
    (q : Queue) (s : ℕ)
    → IsSequence q
    → relative q s ≢ q.mask
    → Taken (relative q s) q
    → (¬ (Accepted (sequence_check q s).0)) × (view_queue (sequence_check q s).1 ≡ view_queue q)
unfolding Taken
Taken-refused q s v ne t =
    let w : IsWindow q.mask (oldest q ∷ newer q) = window_of q v in
    let k : Recorded q.mask (relative q s) (oldest q ∷ newer q) =
      rw (view_queue-cons q v.valid) at t in
    let r : Refuses (oldest q) (newer q) (report (check_relative q (relative q s))) =
      subst (Refuses (oldest q) (newer q)) (sym (check_relative-refines q (relative q s) v.valid)) (
        check-Refuses q.mask (replay_only q) (q.length == queue_length) (next q) (high q)
          (next_low q v.width) (next_top q v.width) (relative q s) (oldest q) (newer q) w
          (relative-lt q s v ne) k) in
    rw (sequence_check-detects q s v.detects) (r.0, r.1 ∙ sym (view_queue-cons q v.valid))
