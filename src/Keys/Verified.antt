-- ===== src/Keys/Verified.antt =====
-- What `_BIDVerifySignature` has checked when it succeeds.
use mathlib.Core.Path.{subst}
use libbrowserid.Prelude.{
  ℕ, zero, suc, ◌≡◌, ◌≢◌, refl, sym, ap, ◌∙◌, Bool, true, false, List, [], ◌∷◌, Option, none, some,
  length, ◌==◌, if◌then◌else◌, Bool-cases, inl, inr,
}
use libbrowserid.Status.{
  Result, good, bad, BidError, ok, no_key, unknown_algorithm, invalid_signature,
}
use libbrowserid.Base64.{codes}
use libbrowserid.Spn.{str_eq}
use libbrowserid.Spn.Strings.{str_eq_iff}
use libbrowserid.Json.{Jansson, string_of}
use libbrowserid.Jwt.{Jwt}
use libbrowserid.Verify.{is_ok}
use libbrowserid.Verify.Bindings.{is_ok→eq}
use libbrowserid.Keys.{
  Algorithm, key_matches, found_or, find_first, or_self, single_key, find_among, find_key, find_in,
  chosen_or, choose, checked, check_with, check_named, verify_signature,
}

module _ (J : Jansson) where
  -- A search that finds only keys with a property, and fails with an error.
  data Finds (P : J.json → Type 0) : Option (Result J.json) → Type 0 where
    no_fuel : Finds P none
    not_found : {e : BidError} → e ≢ ok → Finds P (some (bad e))
    is_found : {k : J.json} → P k → Finds P (some (good k))

  Finds→holds :
      (P : J.json → Type 0) (k : J.json) (r : Option (Result J.json))
      → Finds P r
      → r ≡ some (good k)
      → P k
  Finds→holds P k _ no_fuel e = cc
  Finds→holds P k _ (not_found _) e = cc
  Finds→holds P k _ (is_found {k = x} p) e = let c : x ≡ k = cc in subst P c p

  found_or-Finds :
      (P : J.json → Type 0) (r : Option (Result J.json)) (rest : BidError → Option (Result J.json))
      → Finds P r
      → ((e : BidError) → e ≢ ok → Finds P (rest e))
      → Finds P (found_or J r rest)
  found_or-Finds P _ rest no_fuel h = no_fuel
  found_or-Finds P _ rest (not_found {e = e} ne) h = h e ne
  found_or-Finds P _ rest (is_found p) h = is_found p

  find_first-Finds :
      (P : J.json → Type 0) (find : J.json → Option (Result J.json))
      → ((k : J.json) → Finds P (find k))
      → (ks : List J.json) (e : BidError) → e ≢ ok
      → Finds P (find_first J find ks e)
  unfolding find_first
  find_first-Finds P find h [] e ne = not_found ne
  find_first-Finds P find h (k ∷ ks) e ne =
      found_or-Finds P (find k) (find_first J find ks) (h k)
        (λ x nx. find_first-Finds P find h ks x nx)

  module _ (alg : Algorithm J) where
    abbrev Matches : J.json → Type 0
    Matches k = key_matches J alg k ≡ true

    single_key-Finds : (jwk : J.json) → Finds Matches (single_key J alg jwk)
    single_key-Finds jwk = elim (Bool-cases (key_matches J alg jwk)) [
      | inl fits ↦ rw fits (is_found fits)
      | inr other ↦ rw other (not_found (λ h. cc))
    ]

    find_among-Finds :
        (find : J.json → Option (Result J.json)) (keyset : J.json) (keys : Option J.json)
        → ((k : J.json) → Finds Matches (find k))
        → Finds Matches (find_among J alg find keyset keys)
    find_among-Finds find keyset none h =
        single_key-Finds (or_self J (J.object_get keyset (codes "public-key")) keyset)
    find_among-Finds find keyset (some keys) h = find_first-Finds Matches find h _ no_key (λ e. cc)

    find_key-Finds : (n : ℕ) (keyset : J.json) → Finds Matches (find_key J n alg keyset)
    unfolding find_key
    find_key-Finds zero keyset = no_fuel
    find_key-Finds (suc n) keyset =
        find_among-Finds (find_key J n alg) keyset (J.object_get keyset (codes "keys"))
          (λ k. find_key-Finds n k)

    find_in-Finds : (n : ℕ) (keyset : Option J.json) → Finds Matches (find_in J n alg keyset)
    find_in-Finds n none = not_found (λ h. cc)
    find_in-Finds n (some keyset) = find_key-Finds n keyset

  -- An algorithm of the table.
  pub data Listed : List (Algorithm J) → Algorithm J → Type 0 where
    first : {a : Algorithm J} {rest : List (Algorithm J)} → Listed (a ∷ rest) a
    later : {a b : Algorithm J} {rest : List (Algorithm J)} → Listed rest a → Listed (b ∷ rest) a

  -- A token whose signature is valid by an algorithm of the table that the header names, with a key
  -- of the set that fits the algorithm.
  pub record IsVerified (n : ℕ) (table : List (Algorithm J)) (jwt : Jwt J) (keyset : Option J.json)
      : Type 0 where
    pub alg : Algorithm J
    pub key : J.json
    pub listed : Listed table alg
    pub named : string_of J (J.object_get jwt.header (codes "alg")) ≡ some alg.alg_id
    pub found : find_in J n alg keyset ≡ some (good key)
    pub fits : key_matches J alg key ≡ true
    pub valid : alg.verify jwt key ≡ (ok, true)
    pub signed : (length jwt.signature == 0) ≡ false

  data Chooses (P : Algorithm J → J.json → Type 0)
      : Option (Result (Algorithm J × J.json)) → Type 0 where
    unfuelled : Chooses P none
    not_chosen : {e : BidError} → e ≢ ok → Chooses P (some (bad e))
    is_chosen : {a : Algorithm J} {k : J.json} → P a k → Chooses P (some (good (a, k)))

  chosen_or-Chooses :
      (P : Algorithm J → J.json → Type 0) (alg : Algorithm J) (r : Option (Result J.json))
      (rest : BidError → Option (Result (Algorithm J × J.json)))
      → Finds (λ k. r ≡ some (good k)) r
      → ((k : J.json) → r ≡ some (good k) → P alg k)
      → ((e : BidError) → e ≢ ok → Chooses P (rest e))
      → Chooses P (chosen_or J alg r rest)
  chosen_or-Chooses P alg _ rest no_fuel p h = unfuelled
  chosen_or-Chooses P alg _ rest (not_found {e = e} ne) p h = h e ne
  chosen_or-Chooses P alg _ rest (is_found {k = k} q) p h = is_chosen (p k q)

  Finds-same :
      (P : J.json → Type 0) (r : Option (Result J.json))
      → Finds P r
      → Finds (λ k. r ≡ some (good k)) r
  Finds-same P _ no_fuel = no_fuel
  Finds-same P _ (not_found ne) = not_found ne
  Finds-same P _ (is_found p) = is_found refl

  choose-Chooses :
      (P : Algorithm J → J.json → Type 0) (n : ℕ) (table : List (Algorithm J)) (name : List ℕ)
      (keyset : Option J.json) (err : BidError)
      → ((alg : Algorithm J) (k : J.json)
          → Listed table alg
          → str_eq alg.alg_id name ≡ true
          → find_in J n alg keyset ≡ some (good k)
          → P alg k)
      → err ≢ ok
      → Chooses P (choose J n table name keyset err)
  unfolding choose
  choose-Chooses P n [] name keyset err p ne = not_chosen ne
  choose-Chooses P n (alg ∷ algs) name keyset err p ne =
      elim (Bool-cases (str_eq alg.alg_id name)) [
        | inl same ↦ rw same (
            chosen_or-Chooses P alg (find_in J n alg keyset) (choose J n algs name keyset)
              (Finds-same _ _ (find_in-Finds alg n keyset)) (λ k e. p alg k first same e)
              (λ e ne'. choose-Chooses P n algs name keyset e (λ a k l. p a k (later l)) ne'))
        | inr other ↦
            rw other (choose-Chooses P n algs name keyset err (λ a k l. p a k (later l)) ne)
      ]

  checked→eq : (r : BidError × Bool) → checked J r ≡ ok → r ≡ (ok, true)
  checked→eq (err, valid) h = elim (Bool-cases (is_ok err)) [
    | inl fine ↦ by_valid valid (is_ok→eq err fine) (rw fine at h)
    | inr fails ↦
        let e : err ≡ ok = rw fails at h in
        absurd (let c : true ≡ false = ap is_ok (sym e) ∙ fails in cc)
  ]
    where
      by_valid :
          (v : Bool)
          → err ≡ ok
          → (if v then ok else invalid_signature) ≡ ok
          → ◌≡◌ {A = BidError × Bool} (err, v) (ok, true)
      by_valid true e k = ap (λ x. (x, true)) e
      by_valid false e k = cc

  check_with-valid :
      (P : Algorithm J → J.json → Type 0) (jwt : Jwt J) (r : Option (Result (Algorithm J × J.json)))
      → Chooses P r
      → check_with J jwt r ≡ some ok
      → (alg : Algorithm J) × (key : J.json) × P alg key × (alg.verify jwt key ≡ (ok, true))
  check_with-valid P jwt _ unfuelled e = cc
  check_with-valid P jwt _ (not_chosen ne) e = absurd (ne (let c = e in cc))
  check_with-valid P jwt _ (is_chosen {a = a} {k = k} p) e =
      (a, k, p, checked→eq (a.verify jwt k) (let c = e in cc))

  -- When `_BIDVerifySignature` succeeds, the token has a signature that is valid by an algorithm of
  -- the table, the one that its header names, with a key that was found in the key set and fits
  -- that algorithm.
  pub verify_signature-IsVerified :
      (n : ℕ) (table : List (Algorithm J)) (jwt : Jwt J) (keyset : Option J.json)
      → verify_signature J n table (some jwt) keyset ≡ some ok
      → IsVerified n table jwt keyset
  unfolding verify_signature
  verify_signature-IsVerified n table jwt keyset e = elim (Bool-cases (length jwt.signature == 0)) [
    | inl unsigned ↦ absurd (let c = rw unsigned at e in cc)
    | inr signed ↦
        by_name (string_of J (J.object_get jwt.header (codes "alg"))) refl signed (rw signed at e)
  ]
    where
      by_name :
          (name : Option (List ℕ))
          → string_of J (J.object_get jwt.header (codes "alg")) ≡ name
          → (length jwt.signature == 0) ≡ false
          → check_named J n table jwt keyset name ≡ some ok
          → IsVerified n table jwt keyset
      by_name none q signed h = cc
      by_name (some name) q signed h =
          let (alg, key, (l, same, f), v) =
            check_with-valid
              (λ alg key.
                Listed table alg
                × (str_eq alg.alg_id name ≡ true)
                × (find_in J n alg keyset ≡ some (good key)))
              jwt _
              (choose-Chooses _ n table name keyset unknown_algorithm (λ a k l s f. (l, s, f))
                (λ x. cc))
              h in
          record {
            alg = alg;
            key = key;
            listed = l;
            named = q ∙ ap some (sym ((str_eq_iff alg.alg_id name).0 same));
            found = f;
            fits =
                Finds→holds (Matches alg) key (find_in J n alg keyset) (find_in-Finds alg n keyset)
                  f;
            valid = v;
            signed = signed;
          }
