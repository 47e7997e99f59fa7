-- ===== src/Sequence.antt =====
-- mech_browserid/util_ordering.c: the sequence state of a GSS context, a circular queue of the
-- sequence numbers that were received, used to find replayed and misordered tokens.
mod Tests
pub mod Window
pub mod Ring
pub mod Insert
pub mod Refine
pub mod Sorted
pub mod Replay
pub mod Once
pub mod AtMostOnce
pub mod Late
use Prim.Native.Nat.{bit_and}
use libbrowserid.Prelude.{
  ℕ, zero, suc, ◌+◌, ◌-◌, ◌%◌, ◌/◌, ◌^◌, Bool, true, false, not, ◌&&◌, ◌||◌, List, [], ◌∷◌, ltb,
  ◌==◌, if◌then◌else◌, get_or, set, replicate,
}
use libbrowserid.Gss.{Major, complete, gap_token, duplicate_token, old_token, unseq_token, failure}

-- `QUEUE_LENGTH`
abbrev pub queue_length : ℕ
queue_length = 20

-- `queue`
pub record Queue : Type 0 where
  pub do_replay : Bool
  pub do_sequence : Bool
  pub start : ℕ
  pub length : ℕ
  pub firstnum : ℕ
  pub elem : List ℕ
  pub mask : ℕ

-- `QELEM(q,i)`, read and written. The array has `queue_length` elements.
abbrev pub get_elem : List ℕ → ℕ → ℕ
get_elem e i = get_or e (i % queue_length) 0

abbrev pub set_elem : List ℕ → ℕ → ℕ → List ℕ
set_elem e i v = set e (i % queue_length) v

-- `for (i = …; i > after; i--) QELEM(q,i+1) = QELEM(q,i)`, by the number of rounds.
pub shift_up : ℕ → ℕ → List ℕ → List ℕ
shift_up zero i e = e
shift_up (suc n) i e = shift_up n (i - 1) (set_elem e (i + 1) (get_elem e i))

-- The index of the newest element, `q->start+q->length-1`. The length is at least 1.
abbrev pub last_index : Queue → ℕ
last_index q = q.start + q.length - 1

-- `queue_insert`
pub queue_insert : Queue → ℕ → ℕ → Queue
unfolding shift_up
queue_insert q after seqnum =
    let moved = shift_up (last_index q - after) (last_index q) q.elem in
    let filled = set_elem moved (after + 1) seqnum in
    if q.length == queue_length
    then record q { elem = filled; start = if q.start + 1 == queue_length then 0 else q.start + 1 }
    else record q { elem = filled; length = q.length + 1 }

-- `sequenceInit`; the array is cleared by `calloc`.
pub sequence_init : ℕ → Bool → Bool → Bool → Queue
sequence_init seqnum do_replay do_sequence wide_nums =
    let mask = if wide_nums then 2 ^ 64 - 1 else 2 ^ 32 - 1 in
    record {
      do_replay = do_replay;
      do_sequence = do_sequence;
      start = 0;
      length = 1;
      firstnum = seqnum;
      elem = set_elem (replicate queue_length 0) 0 (bit_and (2 ^ 64 - 1) mask);
      mask = mask;
    }

-- What the loop of rules 4 and 5 finds: the number itself, a place behind index `i`, or neither.
pub data Scan : Type 0 where
  duplicate : Scan
  behind : ℕ → Scan
  absent : Scan

-- `for (i = q->start; i < q->start + q->length - 1; i++)`, by the number of rounds.
pub scan : ℕ → ℕ → List ℕ → ℕ → Scan
scan zero i e s = absent
scan (suc n) i e s =
    let rest = scan n (i + 1) e s in
    if s == get_elem e i
    then duplicate
    else if ltb (get_elem e i) s && ltb s (get_elem e (i + 1))
    then behind i
    else rest

-- `q->do_replay && !q->do_sequence`
abbrev pub replay_only : Queue → Bool
replay_only q = q.do_replay && not q.do_sequence

-- `seqnum -= q->firstnum; seqnum &= q->mask`, in `uint64_t`.
pub relative : Queue → ℕ → ℕ
relative q seqnum = bit_and ((seqnum + 2 ^ 64 - q.firstnum) % 2 ^ 64) q.mask

-- `(QELEM(q,q->start+q->length-1)+1) & q->mask`
pub expected : Queue → ℕ
expected q = bit_and ((get_elem q.elem (last_index q) + 1) % 2 ^ 64) q.mask

-- The tests of rule 3, the second of the highest bit of the width in use.
pub is_old : Queue → ℕ → Bool
is_old q s = ltb s (get_elem q.elem q.start) && not (bit_and s ((1 + q.mask / 2) % 2 ^ 64) == 0)

-- The end of rules 4 and 5.
pub place : Queue → ℕ → Scan → Major × Queue
unfolding queue_insert
place q s duplicate = (duplicate_token, q)
place q s (behind i) = (if replay_only q then complete else unseq_token, queue_insert q i s)
place q s absent = (failure, q)

-- `sequenceCheck` from the relative number on.
pub check_relative : Queue → ℕ → Major × Queue
unfolding queue_insert scan expected is_old place
check_relative q s =
    if s == expected q
    then (complete, queue_insert q (last_index q) s)
    else if ltb (expected q) s
    then (if replay_only q then complete else gap_token, queue_insert q (last_index q) s)
    else if is_old q s
    then (if replay_only q then old_token else unseq_token, q)
    else if s == get_elem q.elem (last_index q)
    then (duplicate_token, q)
    else place q s (scan (q.length - 1) q.start q.elem s)

-- `sequenceCheck`; the minor status is 0.
pub sequence_check : Queue → ℕ → Major × Queue
unfolding relative check_relative
sequence_check q seqnum =
    if not q.do_replay && not q.do_sequence
    then (complete, q)
    else check_relative q (relative q seqnum)

-- A run of checks in order: the statuses, and the queue after it.
pub run : Queue → List ℕ → List Major × Queue
run q [] = ([], q)
run q (s ∷ ss) = let (m, q') = sequence_check q s in let (ms, q'') = run q' ss in (m ∷ ms, q'')
