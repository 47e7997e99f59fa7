-- ===== src/Accept/Established.antt =====
-- The contexts that an acceptor establishes.
use mathlib.Core.Path.{subst}
use libbrowserid.Prelude.{
  ◌≡◌, ◌⊎◌, inl, inr, refl, sym, ap, ◌∙◌, Bool, true, false, Option, none, some, if◌then◌else◌,
}
use libbrowserid.Status.{some-injective}
use libbrowserid.Gss.{Major, defective_token, is_error}
use libbrowserid.Accept.{
  State, initial, established, Acceptor, Call, accept_step, new_acceptor, left, finished,
  with_context, with_token, gss_accept_sec_context,
}
use libbrowserid.Accept.Steps.{IsAcceptor, Checked, not_both, IsSound, sound, accept_step-IsSound}

-- The handles that calls lead to, whatever they find.
pub data Reach : Option Acceptor → Type 0 where
  start : Reach none
  next :
      {h : Option Acceptor} (call : Call) (major : Major) (h' : Option Acceptor)
      → Reach h
      → gss_accept_sec_context call h ≡ some (major, h')
      → Reach h'

abbrev HasState : Option Acceptor → Type 0
HasState none = Unit
HasState (some ctx) = IsAcceptor ctx.state

abbrev pub state_of : Option Acceptor → State
state_of none = initial
state_of (some ctx) = ctx.state

-- What a call leaves, from a state.
record IsLeft (call : Call) (s : State) (r : Major × Option Acceptor) : Type 0 where
  state : HasState r.1
  checked :
      (ctx : Acceptor)
      → r.1 ≡ some ctx
      → ctx.state ≡ established
      → (is_error r.0 ≡ false) × Checked call s

left-IsLeft :
    (call : Call) (s : State) (m : Major) (c : Acceptor)
    → IsAcceptor c.state
    → (is_error m ≡ false → c.state ≡ established → Checked call s)
    → IsLeft call s (left m c)
left-IsLeft call s m c a h = from (is_error m) refl
  where
    from : (b : Bool) → is_error m ≡ b → IsLeft call s (m, if b then none else some c)
    from true e = record { state = tt; checked = λ x q es. absurd cc }
    from false e = record {
      state = a;
      checked = λ x q es.
          let same : c ≡ x = (let d : some c ≡ some x = q in cc) in
          (e, h e (ap (λ y. y.state) same ∙ es));
    }

-- A call with a token that answers, and what it leaves.
data Answers (call : Call) (s : State) : Option (Major × Option Acceptor) → Type 0 where
  answer : (r : Major × Option Acceptor) → IsLeft call s r → Answers call s (some r)

finished-Answers :
    (call : Call) (s : State) (r : Option (Major × Acceptor))
    → IsSound call s r
    → Answers call s (finished call r)
finished-Answers call s _ (sound m c a h) =
    answer _ (left-IsLeft call s _ c a (λ ne es. h (first (is_error m) refl ne) es))
  where
    first :
        (b : Bool)
        → is_error m ≡ b
        → is_error (if is_error m then m else if is_error call.finish then call.finish else m)
          ≡ false
        → is_error m ≡ false
    first true e ne =
        not_both
          (ap (λ b. is_error (if b then m else if is_error call.finish then call.finish else m)) e
            ∙ e)
          ne
    first false e ne = e

with_token-Answers :
    (call : Call) (h : Option Acceptor) → HasState h → Answers call (state_of h) (with_token call h)
with_token-Answers call h a = from (is_error call.token) h a
  where
    refused : (s : State) (m : Major) → Answers call s (some (m, none))
    refused s m = answer _ (record { state = tt; checked = λ x q es. absurd cc })

    made :
        (b : Bool)
        → Answers call initial (
            if b
            then some (call.allocated, none)
            else finished call (accept_step call new_acceptor))
    made true = refused initial call.allocated
    made false = finished-Answers call initial _ (accept_step-IsSound call new_acceptor tt)

    from :
        (b : Bool) (h : Option Acceptor)
        → HasState h
        → Answers call (state_of h) (if b then some (call.token, none) else with_context call h)
    from true h a = refused (state_of h) call.token
    from false (some ctx) a = finished-Answers call ctx.state _ (accept_step-IsSound call ctx a)
    from false none a = made (is_error call.allocated)

-- What a call leaves of a handle: an ESTABLISHED context is either the one that it was given, without
-- a token, or one that it has checked.
record IsKept (call : Call) (h : Option Acceptor) (major : Major) (h' : Option Acceptor)
    : Type 0 where
  state : HasState h'
  checked :
      (ctx : Acceptor)
      → h' ≡ some ctx
      → ctx.state ≡ established
      → ((call.empty ≡ true) × (major ≡ defective_token) × (h ≡ some ctx))
        ⊎ ((call.empty ≡ false) × (is_error major ≡ false) × Checked call (state_of h))

gss_accept-IsKept :
    (call : Call) (h : Option Acceptor)
    → HasState h
    → (major : Major) × (h' : Option Acceptor) × (gss_accept_sec_context call h ≡ some (major, h'))
      × IsKept call h major h'
unfolding gss_accept_sec_context
gss_accept-IsKept call h a = from call.empty refl
  where
    answered :
        (r : Option (Major × Option Acceptor))
        → call.empty ≡ false
        → Answers call (state_of h) r
        → (major : Major) × (h' : Option Acceptor) × (r ≡ some (major, h')) × IsKept call h major h'
    answered _ e (answer r l) = (
      r.0,
      r.1,
      refl,
      record {
        state = l.state;
        checked = λ x q es. inr (e, (l.checked x q es).0, (l.checked x q es).1);
      },
    )

    from :
        (b : Bool)
        → call.empty ≡ b
        → (major : Major) × (h' : Option Acceptor) × ((if b
              then some (defective_token, h)
              else with_token call h)
            ≡ some (major, h'))
          × IsKept call h major h'
    from true e =
        (defective_token, h, refl, record { state = a; checked = λ x q es. inl (e, refl, q) })
    from false e = answered (with_token call h) e (with_token-Answers call h a)

Reach-HasState : {h : Option Acceptor} → Reach h → HasState h
Reach-HasState start = tt
Reach-HasState (next {h} call major h' reached e) =
    let (m, k, q, kept) = gss_accept-IsKept call h (Reach-HasState reached) in
    subst HasState (ap (λ p. p.1) (some-injective (sym q ∙ e))) kept.state

-- Whatever calls an acceptor has had, with whatever outcomes, it answers the next one, never in a
-- state that is the initiator's; and a context that the call leaves ESTABLISHED, where it is not
-- released, is the one that it was given, where the call had no token and returns
-- GSS_S_DEFECTIVE_TOKEN, or was returned without an error by a call that found the assertion right,
-- or in the state after an extra round trip its token.
pub Reach-Checked :
    (h : Option Acceptor)
    → Reach h
    → (call : Call)
    → (major : Major) × (h' : Option Acceptor) × (gss_accept_sec_context call h ≡ some (major, h'))
      × ((ctx : Acceptor)
          → h' ≡ some ctx
          → ctx.state ≡ established
          → ((call.empty ≡ true) × (major ≡ defective_token) × (h ≡ some ctx))
            ⊎ ((call.empty ≡ false) × (is_error major ≡ false) × Checked call (state_of h)))
Reach-Checked h reached call =
    let (m, k, q, kept) = gss_accept-IsKept call h (Reach-HasState reached) in
    (m, k, q, kept.checked)
