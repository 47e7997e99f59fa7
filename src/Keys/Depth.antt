-- ===== src/Keys/Depth.antt =====
-- The fuel that the search for a key needs: more than the depth of the key set.
use libbrowserid.Prelude.{
  ℕ, zero, suc, ◌<◌, ◌≡◌, refl, List, [], ◌∷◌, All, Option, none, some, arith, Bool-cases, inl, inr,
  length, ◌==◌,
}
use libbrowserid.Status.{Result, good, bad, BidError, no_key, unknown_algorithm}
use libbrowserid.Base64.{codes}
use libbrowserid.Spn.{str_eq}
use libbrowserid.Json.{Jansson, string_of}
use libbrowserid.Jwt.{JsonText, Jwt}
use libbrowserid.Keys.Make.{choose_any, chosen, sign_with, make_signature}
use libbrowserid.Keys.{
  Algorithm, found_or, find_first, items_or_none, find_among, find_key, find_in, chosen_or, choose,
  check_with, check_named, verify_signature,
}

-- The values of JSON are finite: a key set is deeper than the keys in it.
pub record HasDepth (J : Jansson) : Type 0 where
  pub depth : J.json → ℕ
  pub keys-depth :
      (keyset keys : J.json) (vs : List J.json)
      → J.object_get keyset (codes "keys") ≡ some keys
      → J.array_items keys ≡ some vs
      → All (λ v. depth v < depth keyset) vs

module _ (J : Jansson) (D : HasDepth J) where
  -- An answer, and not the end of the fuel.
  pub data Answers {ℓ} {A : Type ℓ} : Option A → Type ℓ where
    answer : {a : A} → Answers (some a)

  found_or-Answers :
      (r : Option (Result J.json)) (rest : BidError → Option (Result J.json))
      → Answers r
      → ((e : BidError) → Answers (rest e))
      → Answers (found_or J r rest)
  found_or-Answers _ rest (answer {a = good k}) h = answer
  found_or-Answers _ rest (answer {a = bad e}) h = h e

  find_first-Answers :
      (find : J.json → Option (Result J.json)) (ks : List J.json) (e : BidError)
      → All (λ k. Answers (find k)) ks
      → Answers (find_first J find ks e)
  unfolding find_first
  find_first-Answers find [] e h = answer
  find_first-Answers find (k ∷ ks) e (a, h) =
      found_or-Answers (find k) (find_first J find ks) a (λ x. find_first-Answers find ks x h)

  All-map :
      {P Q : J.json → Type 0} (vs : List J.json) → ((v : J.json) → P v → Q v) → All P vs → All Q vs
  All-map [] f h = tt
  All-map (v ∷ vs) f (h, hs) = (f v h, All-map vs f hs)

  find_among-Answers :
      (alg : Algorithm J) (find : J.json → Option (Result J.json)) (keyset : J.json)
      (keys : Option J.json)
      → J.object_get keyset (codes "keys") ≡ keys
      → ((v : J.json) → D.depth v < D.depth keyset → Answers (find v))
      → Answers (find_among J alg find keyset keys)
  find_among-Answers alg find keyset none e h = answer
  find_among-Answers alg find keyset (some keys) e h = items (J.array_items keys) refl
    where
      items :
          (vs : Option (List J.json))
          → J.array_items keys ≡ vs
          → Answers (find_first J find (items_or_none J vs) no_key)
      items none q = find_first-Answers find [] no_key tt
      items (some vs) q =
          find_first-Answers find vs no_key
            (All-map {P = λ v. D.depth v < D.depth keyset} vs h (D.keys-depth keyset keys vs e q))

  find_key-Answers :
      (n : ℕ) (alg : Algorithm J) (keyset : J.json)
      → D.depth keyset < n
      → Answers (find_key J n alg keyset)
  unfolding find_key
  find_key-Answers zero alg keyset l = absurd (omega arith)
  find_key-Answers (suc n) alg keyset l =
      find_among-Answers alg (find_key J n alg) keyset _ refl
        (λ v lt. find_key-Answers n alg v (omega arith))

  abbrev pub Shallow : ℕ → Option J.json → Type 0
  Shallow n none = Unit
  Shallow n (some keyset) = D.depth keyset < n

  find_in-Answers :
      (n : ℕ) (alg : Algorithm J) (keyset : Option J.json)
      → Shallow n keyset
      → Answers (find_in J n alg keyset)
  find_in-Answers n alg none l = answer
  find_in-Answers n alg (some keyset) l = find_key-Answers n alg keyset l

  chosen_or-Answers :
      (alg : Algorithm J) (r : Option (Result J.json))
      (rest : BidError → Option (Result (Algorithm J × J.json)))
      → Answers r
      → ((e : BidError) → Answers (rest e))
      → Answers (chosen_or J alg r rest)
  chosen_or-Answers alg _ rest (answer {a = good k}) h = answer
  chosen_or-Answers alg _ rest (answer {a = bad e}) h = h e

  choose-Answers :
      (n : ℕ) (table : List (Algorithm J)) (name : List ℕ) (keyset : Option J.json) (err : BidError)
      → Shallow n keyset
      → Answers (choose J n table name keyset err)
  unfolding choose
  choose-Answers n [] name keyset err l = answer
  choose-Answers n (alg ∷ algs) name keyset err l = elim (Bool-cases (str_eq alg.alg_id name)) [
    | inl same ↦ rw same (
        chosen_or-Answers alg (find_in J n alg keyset) (choose J n algs name keyset)
          (find_in-Answers n alg keyset l) (λ e. choose-Answers n algs name keyset e l))
    | inr other ↦ rw other (choose-Answers n algs name keyset err l)
  ]

  check_with-Answers :
      (jwt : Jwt J) (r : Option (Result (Algorithm J × J.json)))
      → Answers r
      → Answers (check_with J jwt r)
  check_with-Answers jwt _ (answer {a = good (alg, key)}) = answer
  check_with-Answers jwt _ (answer {a = bad e}) = answer

  -- `_BIDVerifySignature` returns for every token and every key set: the search of the keys needs no
  -- more fuel than one more than the depth of the set.
  pub verify_signature-Answers :
      (n : ℕ) (table : List (Algorithm J)) (jwt : Option (Jwt J)) (keyset : Option J.json)
      → Shallow n keyset
      → Answers (verify_signature J n table jwt keyset)
  unfolding verify_signature
  verify_signature-Answers n table none keyset l = answer
  verify_signature-Answers n table (some jwt) keyset l =
      elim (Bool-cases (length jwt.signature == 0)) [
        | inl unsigned ↦ rw unsigned answer
        | inr signed ↦ rw signed (by_name (string_of J (J.object_get jwt.header (codes "alg"))))
      ]
    where
      by_name : (name : Option (List ℕ)) → Answers (check_named J n table jwt keyset name)
      by_name none = answer
      by_name (some name) =
          check_with-Answers jwt _ (choose-Answers n table name keyset unknown_algorithm l)

  choose_any-Answers :
      (n : ℕ) (table : List (Algorithm J)) (keyset : Option J.json) (err : BidError)
      → Shallow n keyset
      → Answers (choose_any J n table keyset err)
  unfolding choose_any
  choose_any-Answers n [] keyset err l = answer
  choose_any-Answers n (alg ∷ algs) keyset err l =
      chosen_or-Answers alg (find_in J n alg keyset) (choose_any J n algs keyset)
        (find_in-Answers n alg keyset l) (λ e. choose_any-Answers n algs keyset e l)

  -- `_BIDMakeSignature` returns with as much.
  make_signature-Answers :
      (T : JsonText J) (n : ℕ) (table : List (Algorithm J)) (header : Option J.json)
      (payload : J.json) (keyset certs : Option J.json)
      → Shallow n keyset
      → Answers (make_signature J T n table header payload keyset certs)
  unfolding make_signature
  make_signature-Answers T n table header payload none certs l = answer
  make_signature-Answers T n table header payload (some keyset) certs l =
      from _ (choose_any-Answers n table (some keyset) unknown_algorithm l)
    where
      from :
          (r : Option (Result (Algorithm J × J.json)))
          → Answers r
          → Answers (sign_with J T header payload certs (chosen J r))
      from _ (answer {a = good (alg, key)}) = answer
      from _ (answer {a = bad e}) = answer
