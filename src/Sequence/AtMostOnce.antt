-- ===== src/Sequence/AtMostOnce.antt =====
-- Runs of `sequenceCheck`, from `sequenceInit` on: no sequence number is accepted twice.
use libbrowserid.Prelude.{
  ℕ, ◌≡◌, ◌≢◌, refl, List, [], ◌∷◌, All, arith, Bool, true, false, not, ◌&&◌, inl, inr,
}
use libbrowserid.Sequence.{Queue, relative, sequence_check, sequence_init, run}
use libbrowserid.Sequence.Ring.{view}
use libbrowserid.Sequence.Insert.{view_queue}
use libbrowserid.Sequence.Replay.{Accepted}
use libbrowserid.Sequence.Once.{
  IsSequence, Taken, Same, Same-trans, relative-Same, sequence_check-IsSequence,
  sequence_check-Taken, sequence_check-Same, Accepted-Taken, Taken-refused,
}

-- No number of the run is the one before the first.
abbrev pub Regular : Queue → List ℕ → Type 0
Regular q = All (λ s. relative q s ≢ q.mask)

Same-refl : (q : Queue) → Same q q
Same-refl q = record { mask = refl; firstnum = refl; do_replay = refl; do_sequence = refl }

regular_later : (q q' : Queue) (s : ℕ) → Same q q' → relative q s ≢ q.mask → relative q' s ≢ q'.mask
regular_later q q' s h ne = rw (relative-Same q q' s h, h.mask) ne

run-keeps :
    (q0 q : Queue) (r : ℕ) (ss : List ℕ)
    → Same q0 q
    → IsSequence q
    → Regular q0 ss
    → Taken r q
    → IsSequence (run q ss).1 × Taken r (run q ss).1 × Same q0 (run q ss).1
unfolding run
run-keeps q0 q r [] same v n t = (v, t, same)
run-keeps q0 q r (s ∷ ss) same v (n, ns) t =
    let n' : relative q s ≢ q.mask = regular_later q0 q s same n in
    run-keeps q0 (sequence_check q s).1 r ss (Same-trans same (sequence_check-Same q s v))
      (sequence_check-IsSequence q s v n') ns (sequence_check-Taken q s r v n' t)

-- A sequence number that `sequenceCheck` has accepted (GSS_S_COMPLETE or GSS_S_GAP_TOKEN) is not
-- accepted again, whatever numbers are checked in between: the later check fails or reports a
-- duplicate, an old or an unsequenced token, and leaves the window as it was. The queue keeps its
-- invariant and asks for replay or sequence detection, and no number checked is the predecessor of
-- the first number of the context (whose relative number is the mask).
pub Accepted-once :
    (q : Queue) (s : ℕ) (ss : List ℕ)
    → IsSequence q
    → relative q s ≢ q.mask
    → Regular q ss
    → Accepted (sequence_check q s).0
    → let q' = (run (sequence_check q s).1 ss).1 in
      (¬ (Accepted (sequence_check q' s).0)) × (view_queue (sequence_check q' s).1 ≡ view_queue q')
Accepted-once q s ss v n ns a =
    let q1 : Queue = (sequence_check q s).1 in
    let (v', t, same) =
      run-keeps q q1 (relative q s) ss (sequence_check-Same q s v)
        (sequence_check-IsSequence q s v n) ns (Accepted-Taken q s v n a) in
    let q' : Queue = (run q1 ss).1 in
    Taken-refused q' s v' (regular_later q q' s same n) (rw (relative-Same q q' s same) t)

-- `sequenceInit` sets up the invariant of the queue, for either width, if replay or sequence
-- detection is asked for.
pub sequence_init-IsSequence :
    (seqnum : ℕ) (replay order wide : Bool)
    → (not replay && not order) ≡ false
    → IsSequence (sequence_init seqnum replay order wide)
unfolding sequence_init
sequence_init-IsSequence seqnum replay order true d = record {
  valid = omega arith;
  detects = d;
  width = inl refl;
  rising = unfold view in inl (refl, tt);
}
sequence_init-IsSequence seqnum replay order false d = record {
  valid = omega arith;
  detects = d;
  width = inr refl;
  rising = unfold view in inl (refl, tt);
}
