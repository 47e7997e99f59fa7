-- ===== src/Local/Steps.antt =====
-- What the parts of a verification that succeeds have done.
use libbrowserid.Prelude.{◌≡◌, refl, ap, ◌∙◌, Option, none, some}
use libbrowserid.Status.{Result, good, bad, BidError, ok}
use libbrowserid.Local.{Run, continue, run_then, outcome, with_cache, check, of_result}

pub some_good : {A : Type 0} {a b : A} → some (good a) ≡ some (good b) → a ≡ b
some_good {a = a} h = ap (value a) h
  where
    value : {A : Type 0} → A → Option (Result A) → A
    value a none = a
    value a (some (bad e)) = a
    value a (some (good b)) = b

-- A part that was done, with its value and the cache that it left.
pub run_then-good :
    {S A B : Type 0} (m : Run S A) (f : A → Run S B) (c : Option S) (b : B)
    → (run_then m f c).0 ≡ some (good b)
    → (a : A) × (c' : Option S) × (m c ≡ (some (good a), c')) × ((f a c').0 ≡ some (good b))
run_then-good {S} {A} {B} m f c b h = from (m c) refl h
  where
    from :
        (r : Option (Result A) × Option S)
        → m c ≡ r
        → (continue f r).0 ≡ some (good b)
        → (a : A) × (c' : Option S) × (m c ≡ (some (good a), c')) × ((f a c').0 ≡ some (good b))
    from (none, d) e h = absurd cc
    from (some (bad x), d) e h = absurd cc
    from (some (good a), d) e h = (a, d, e, h)

outcome-good : (e : Option BidError) (u : Unit {0}) → outcome e ≡ some (good u) → e ≡ some ok
outcome-good none u h = absurd cc
outcome-good (some ok) u h = refl
outcome-good (some e) u h = absurd cc

-- The same for a check.
pub check-good :
    {S B : Type 0} (e : Option BidError) (f : Unit {0} → Run S B) (c : Option S) (b : B)
    → (run_then (check e) f c).0 ≡ some (good b)
    → (e ≡ some ok) × ((f tt c).0 ≡ some (good b))
check-good e f c b h =
    let (u, d, q, rest) = run_then-good (check e) f c b h in
    (outcome-good e u (ap (λ p. p.0) q), ap (λ x. (f tt x).0) (ap (λ p. p.1) q) ∙ rest)

-- The same for a check that may change the cache.
pub with_cache-good :
    {S B : Type 0} (p : Option S → Option BidError × Option S) (f : Unit {0} → Run S B)
    (c : Option S) (b : B)
    → (run_then (λ d. with_cache (p d)) f c).0 ≡ some (good b)
    → ((p c).0 ≡ some ok) × ((f tt (p c).1).0 ≡ some (good b))
with_cache-good p f c b h =
    let (u, d, q, rest) = run_then-good (λ d. with_cache (p d)) f c b h in
    (outcome-good (p c).0 u (ap (λ r. r.0) q), ap (λ x. (f tt x).0) (ap (λ r. r.1) q) ∙ rest)

-- The same for a part that leaves the cache alone.
pub of_result-good :
    {S A B : Type 0} (r : Result A) (f : A → Run S B) (c : Option S) (b : B)
    → (run_then (of_result r) f c).0 ≡ some (good b)
    → (a : A) × (r ≡ good a) × ((f a c).0 ≡ some (good b))
of_result-good (good a) f c b h = (a, refl, h)
of_result-good (bad e) f c b h = absurd cc
