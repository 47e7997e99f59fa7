-- ===== src/Sequence/Tests.antt =====
-- Runs of the sequence state.
use libbrowserid.Prelude.{
  if◌then◌else◌, not, ◌&&◌, ◌-◌, ◌≡◌, ◌≢◌, refl, true, false, [], ◌∷◌, ◌==◌, arith, inl, inr, ◌^◌,
  replicate,
}
use libbrowserid.Gss.{complete, gap_token, duplicate_token, unseq_token, failure}
use libbrowserid.Sequence.{
  Queue, queue_length, replay_only, sequence_init, sequence_check, check_relative, relative, run,
}
use libbrowserid.Sequence.Ring.{view}
use libbrowserid.Sequence.Insert.{IsValid, view_queue}
use libbrowserid.Sequence.Window.{check}
use libbrowserid.Sequence.Refine.{report, next, high, oldest, newer, sequence_check-refines}
use libbrowserid.Sequence.Replay.{Accepted}
use libbrowserid.Sequence.Once.{IsSequence, sequence_check-IsSequence}
use libbrowserid.Sequence.AtMostOnce.{Accepted-once, sequence_init-IsSequence}
use libbrowserid.Sequence.Late.{below_window-fails, first_accepted_twice}

run_example :
    (run (sequence_init 5 true true true) (5 ∷ 6 ∷ 9 ∷ 8 ∷ 8 ∷ 6 ∷ [])).0
    ≡ complete ∷ complete ∷ gap_token ∷ unseq_token ∷ duplicate_token ∷ duplicate_token ∷ []
unfolding sequence_init run sequence_check
run_example = refl

late : (run (sequence_init 5 true true true) (7 ∷ 6 ∷ [])).0 ≡ gap_token ∷ failure ∷ []
unfolding sequence_init run sequence_check
late = refl

before :
    (run (sequence_init 5 true false false) (5 ∷ 4 ∷ 5 ∷ [])).0
    ≡ complete ∷ complete ∷ complete ∷ []
unfolding sequence_init run sequence_check
before = refl

abbrev start : Queue
start = sequence_init 5 true true true

start-IsSequence : IsSequence start
start-IsSequence = sequence_init-IsSequence 5 true true true refl

six_regular : relative start 6 ≢ start.mask
unfolding sequence_init relative
six_regular = omega arith

five_regular : relative start 5 ≢ start.mask
unfolding sequence_init relative
five_regular = omega arith

sequence_check-IsSequence_example : IsSequence (sequence_check start 6).1
sequence_check-IsSequence_example = sequence_check-IsSequence start 6 start-IsSequence six_regular

-- 6 comes (a gap), then 5, then 6 again.
Accepted-once_example :
    let q' = (run (sequence_check start 6).1 (5 ∷ [])).1 in
    (¬ (Accepted (sequence_check q' 6).0)) × (view_queue (sequence_check q' 6).1 ≡ view_queue q')
Accepted-once_example =
    Accepted-once start 6 (5 ∷ []) start-IsSequence six_regular (five_regular, tt)
      (unfold sequence_init sequence_check in tt)

-- 0, 1, 4 and 7 behind the number before the first.
abbrev window : Queue
window = record start {
  length = 5;
  elem = (2 ^ 64 - 1) ∷ 0 ∷ 1 ∷ 4 ∷ 7 ∷ replicate 15 0;
  start = 0;
  mask = 2 ^ 64 - 1;
}

window-IsValid : IsValid window
window-IsValid = omega arith

sequence_check-refines_example : report (sequence_check window 3) ≡ (
    if not window.do_replay && not window.do_sequence
    then (complete, oldest window ∷ newer window)
    else check
        (replay_only window)
        (5 == queue_length)
        (next window)
        (high window)
        (relative window 3)
        (oldest window)
        (newer window))
sequence_check-refines_example = sequence_check-refines window 3 window-IsValid

-- 7 and 9 came first, and now 3.
abbrev gap : Queue
gap = record start {
  length = 3;
  elem = (2 ^ 64 - 1) ∷ 7 ∷ 9 ∷ replicate 17 0;
  start = 0;
  mask = 2 ^ 64 - 1;
}

gap-IsSequence : IsSequence gap
unfolding sequence_init view
gap-IsSequence = record {
  valid = omega arith;
  detects = refl;
  width = inl refl;
  rising = inl (refl, omega arith);
}

below_window-fails_example : report (check_relative gap 3) ≡ (failure, view_queue gap)
below_window-fails_example =
    below_window-fails gap 3 gap-IsSequence (unfold view in inr (refl, omega arith)) refl

first_accepted_twice_example :
    (run (sequence_init 5 true false false) (5 ∷ 4 ∷ 5 ∷ [])).0
    ≡ complete ∷ complete ∷ complete ∷ []
first_accepted_twice_example = first_accepted_twice 5 false (omega arith) (omega arith)
