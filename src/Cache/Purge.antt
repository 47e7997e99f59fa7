-- ===== src/Cache/Purge.antt =====
-- Purging a cache in memory is a filter of its objects.
use mathlib.Core.Path.{subst}
use libbrowserid.Prelude.{
  ℕ, zero, suc, ◌≤◌, ◌<◌, arith, length, ◌≡◌, refl, sym, ap, ap₂, ◌∙◌, Bool, true, false, ◌&&◌,
  List, [], ◌∷◌, Option, none, some, All, Bool-cases, Option-cases, inl, inr, if◌then◌else◌,
}
use libbrowserid.Prelude.Int.{ℤ}
use libbrowserid.Status.{
  Result, good, bad, BidError, ok, ◌>>=◌, cache_key_not_found, cache_permission_denied,
}
use libbrowserid.Spn.{str_eq}
use libbrowserid.Spn.Strings.{str_eq_iff}
use libbrowserid.Json.{Jansson, IsJansson, json_object_del}
use libbrowserid.Json.Change.{deleted}
use libbrowserid.Jwt.{JsonText}
use libbrowserid.Cache.{
  Cookie, start_of, Operations, get_cache_object, remove_cache_object, perform_loop, perform_from,
  remove_if, purge_cache, cache_iterator_alloc, cache_iterator_next, perform_cache_objects,
}
use libbrowserid.Cache.Memory.{
  MemoryCache, value_or, store, memory_cache, memory_cache_get_object, memory_cache_remove_object,
  memory_cache_first_object, memory_cache_next_object,
}

and_true : (b : Bool) → (b && true) ≡ b
and_true true = refl
and_true false = refl

and_false : (b : Bool) → (b && false) ≡ false
and_false true = refl
and_false false = refl

module _ (J : Jansson) where
  abbrev pub occurs : List ℕ → List (List ℕ × J.json) → Bool
  occurs k [] = false
  occurs k ((l, v) ∷ ms) = let rest = occurs k ms in if str_eq k l then true else rest

  -- The members of an object, each with its value.
  pub record IsListing (o : J.json) (items : List (List ℕ × J.json)) : Type 0 where
    pub sound : All (λ m. J.object_get o m.0 ≡ some m.1) items
    pub complete : (k : List ℕ) (v : J.json) → J.object_get o k ≡ some v → occurs k items ≡ true

  -- What is left of an object: nothing, if it was found and is to be removed.
  abbrev pub kept : (List ℕ → J.json → Bool) → List ℕ → Result J.json → Result J.json
  kept predicate k (good v) = if predicate k v then bad cache_key_not_found else good v
  kept predicate k (bad e) = bad e

  -- The value of a key after the removals for some members.
  abbrev after :
      (List ℕ → J.json → Bool) → List (List ℕ × J.json) → List ℕ → Option J.json → Option J.json
  after p [] k r = r
  after p ((l, v) ∷ ms) k r = after p ms k (if str_eq k l && p l v then none else r)

  after-none :
      (p : List ℕ → J.json → Bool) (ms : List (List ℕ × J.json)) (k : List ℕ)
      → after p ms k none ≡ none
  after-none p [] k = refl
  after-none p ((l, v) ∷ ms) k = elim (Bool-cases (str_eq k l && p l v)) [
    | inl gone ↦ rw gone (after-none p ms k)
    | inr stays ↦ rw stays (after-none p ms k)
  ]

  after-some :
      (p : List ℕ → J.json → Bool) (o : J.json) (ms : List (List ℕ × J.json)) (k : List ℕ)
      (v : J.json)
      → All (λ m. J.object_get o m.0 ≡ some m.1) ms
      → J.object_get o k ≡ some v
      → after p ms k (some v) ≡ (if occurs k ms && p k v then none else some v)
  after-some p o [] k v a h = refl
  after-some p o ((l, w) ∷ ms) k v (a, as') h = elim (Bool-cases (str_eq k l)) [
    | inr differ ↦ rw differ (after-some p o ms k v as' h)
    | inl same ↦
        let kl : k ≡ l = (str_eq_iff k l).0 same in
        let wv : w ≡ v =
          (let q : some w ≡ some v = sym a ∙ (ap (J.object_get o) (sym kl) ∙ h) in cc) in
        let tests : p l w ≡ p k v = ap₂ p (sym kl) wv in
        elim (Bool-cases (p k v)) [
          | inl gone ↦ rw (same, tests, gone) (after-none p ms k)
          | inr stays ↦
              rw (same, tests, stays)
                (after-some p o ms k v as' h
                  ∙ (ap (λ q. if occurs k ms && q then none else some v) stays
                      ∙ ap (λ b. if b then none else some v) (and_false (occurs k ms))))
        ]
  ]

  -- After the removals for all the members of an object, what is left of it.
  after-IsListing :
      (p : List ℕ → J.json → Bool) (o : J.json) (ms : List (List ℕ × J.json)) (k : List ℕ)
      → IsListing o ms
      → value_or J cache_key_not_found (after p ms k (J.object_get o k))
        ≡ kept p k (value_or J cache_key_not_found (J.object_get o k))
  after-IsListing p o ms k i = elim (Option-cases (J.object_get o k)) [
    | inl none' ↦ rw none' (ap (value_or J cache_key_not_found) (after-none p ms k))
    | inr (v, e) ↦ rw e (
        ap (value_or J cache_key_not_found) (after-some p o ms k v i.sound e)
        ∙ (ap (λ b. value_or J cache_key_not_found (if b && p k v then none else some v))
              (i.complete k v e)
            ∙ one_test (p k v) v))
  ]
    where
      one_test :
          (b : Bool) (v : J.json)
          → value_or J cache_key_not_found (if b then none else some v)
            ≡ (if b then bad cache_key_not_found else good v)
      one_test true v = refl
      one_test false v = refl

abbrev first_of : (J : Jansson) → List (List ℕ × J.json) → Result (Cookie J × (List ℕ × J.json))
first_of J [] = bad cache_key_not_found
first_of J (m ∷ ms) = good (ms, m)

first_object-listed :
    (J : Jansson) (T : JsonText J) (mc : MemoryCache J) (o : J.json) (ms : List (List ℕ × J.json))
    → J.copy mc.object ≡ some o
    → T.object_items o ≡ some ms
    → memory_cache_first_object J T mc ≡ first_of J ms
unfolding memory_cache_first_object cache_iterator_alloc cache_iterator_next
first_object-listed J T mc o ms c i =
    ap (λ q. cache_iterator_alloc J T q >>= cache_iterator_next J) c
    ∙ (ap (λ q. start_of J T q >>= cache_iterator_next J) i ∙ from ms)
  where
    from :
        (ms : List (List ℕ × J.json))
        → (start_of J T (some ms) >>= cache_iterator_next J) ≡ first_of J ms
    from [] = refl
    from (m ∷ ms) = refl

module _ (J : Jansson) (L : IsJansson J) (T : JsonText J) (now : ℤ) where
  -- A cache in memory that can be written and whose object has certain values.
  record HasValues (mc : MemoryCache J) (f : List ℕ → Option J.json) : Type 0 where
    writable : mc.read_only ≡ false
    values : (k : List ℕ) → J.object_get mc.object k ≡ f k

  abbrev ops : Operations J (MemoryCache J)
  ops = memory_cache J T now

  remove-HasValues :
      (mc : MemoryCache J) (f : List ℕ → Option J.json) (l : List ℕ)
      → HasValues mc f
      → HasValues
          (remove_cache_object J (MemoryCache J) ops mc l).1
          (λ k. if str_eq k l then none else f k)
  unfolding remove_cache_object memory_cache_remove_object
  remove-HasValues mc f l h =
      let (o', d, v) = deleted J L mc.object l in
      let done : (memory_cache_remove_object J now mc l).1
          ≡ record mc { object = o'; last_changed = now } =
        ap
          (λ b.
            (if b
              then (cache_permission_denied, mc)
              else store J now mc (json_object_del J mc.object l false)).1)
          h.writable
        ∙ ap (λ r. (store J now mc r).1) d in
      subst (λ x. HasValues x (λ k. if str_eq k l then none else f k)) (sym done)
        (record {
          writable = h.writable;
          values = λ k. v k ∙ ap (λ r. if str_eq k l then none else r) (h.values k);
        })

  -- A member that a test picks is removed.
  step-HasValues :
      (b : Bool) (mc : MemoryCache J) (f : List ℕ → Option J.json) (l : List ℕ)
      → HasValues mc f
      → HasValues
          (if b then (remove_cache_object J (MemoryCache J) ops mc l).1 else mc)
          (λ k. if str_eq k l && b then none else f k)
  step-HasValues true mc f l h =
      let r = remove-HasValues mc f l h in
      record {
        writable = r.writable;
        values = λ k. r.values k ∙ ap (λ b. if b then none else f k) (sym (and_true (str_eq k l)));
      }
  step-HasValues false mc f l h = record {
    writable = h.writable;
    values = λ k. h.values k ∙ ap (λ b. if b then none else f k) (sym (and_false (str_eq k l)));
  }

  module _ (p : List ℕ → J.json → Bool) where
    loop-HasValues :
        (n : ℕ) (m : List ℕ × J.json) (ms : List (List ℕ × J.json)) (mc : MemoryCache J)
        (f : List ℕ → Option J.json)
        → length ms < n
        → HasValues mc f
        → (mc' : MemoryCache J) × (perform_loop J
              (MemoryCache J)
              ops
              n
              (remove_if J (MemoryCache J) ops p)
              ms
              m
              (ok, mc)
            ≡ some (ok, mc'))
          × HasValues mc' (λ k. after J p (m ∷ ms) k (f k))
    unfolding perform_loop remove_if memory_cache_next_object cache_iterator_next
    loop-HasValues zero m ms mc f l h = absurd (omega (arith, l))
    loop-HasValues (suc n) (k, v) [] mc f l h = (_, refl, step-HasValues (p k v) mc f k h)
    loop-HasValues (suc n) (k, v) (m ∷ ms) mc f l h =
        loop-HasValues n m ms _ (λ j. if str_eq j k && p k v then none else f j) (omega (arith, l))
          (step-HasValues (p k v) mc f k h)

    -- The status of the loop: without objects it does not find the first one.
    abbrev pub purge_status : List (List ℕ × J.json) → BidError
    purge_status [] = cache_key_not_found
    purge_status (m ∷ ms) = ok

    purge-HasValues :
        (n : ℕ) (mc : MemoryCache J) (o : J.json) (ms : List (List ℕ × J.json))
        → length ms ≤ n
        → mc.read_only ≡ false
        → J.copy mc.object ≡ some o
        → T.object_items o ≡ some ms
        → (mc' : MemoryCache J) × (purge_cache J (MemoryCache J) ops n p mc
            ≡ some (purge_status ms, mc'))
          × HasValues mc' (λ k. after J p ms k (J.object_get mc.object k))
    unfolding purge_cache perform_cache_objects memory_cache_first_object
    purge-HasValues n mc o ms l w c i =
        subst
          (λ r.
            (mc' : MemoryCache J) × (perform_from J (MemoryCache J) ops n
                (remove_if J (MemoryCache J) ops p) mc r
              ≡ some (purge_status ms, mc'))
            × HasValues mc' (λ k. after J p ms k (J.object_get mc.object k)))
          (sym (first_object-listed J T mc o ms c i)) (from ms l)
      where
        from :
            (ms : List (List ℕ × J.json))
            → length ms ≤ n
            → (mc' : MemoryCache J) × (perform_from J
                  (MemoryCache J)
                  ops
                  n
                  (remove_if J (MemoryCache J) ops p)
                  mc
                  (first_of J ms)
                ≡ some (purge_status ms, mc'))
              × HasValues mc' (λ k. after J p ms k (J.object_get mc.object k))
        from [] l = (mc, refl, record { writable = w; values = λ k. refl })
        from (m ∷ ms) l =
            loop-HasValues n m ms mc (J.object_get mc.object) (omega (arith, l))
              (record { writable = w; values = λ k. refl })

    -- Purging a cache in memory that can be written comes to an end, with fuel for each object, and
    -- leaves of the object under each key what the predicate does not hold of, and nothing else; here
    -- the JSON library lists the members of the cache's object, each with its value. It returns
    -- BID_S_OK, but BID_S_CACHE_KEY_NOT_FOUND for a cache without objects.
    pub get-purge_cache :
        (n : ℕ) (mc : MemoryCache J) (o : J.json) (ms : List (List ℕ × J.json))
        → length ms ≤ n
        → mc.read_only ≡ false
        → J.copy mc.object ≡ some o
        → T.object_items o ≡ some ms
        → IsListing J o ms
        → (mc' : MemoryCache J) × (purge_cache J (MemoryCache J) ops n p mc
            ≡ some (purge_status ms, mc'))
          × ((k : List ℕ)
              → get_cache_object J (MemoryCache J) ops (some mc') (some k)
                ≡ kept J p k (get_cache_object J (MemoryCache J) ops (some mc) (some k)))
    unfolding get_cache_object memory_cache_get_object
    get-purge_cache n mc o ms l w c i listing =
        let (mc', done, has) = purge-HasValues n mc o ms l w c i in
        (
          mc',
          done,
          λ k.
              let same : J.object_get mc.object k ≡ J.object_get o k =
                sym (L.get-copy mc.object o k c) in
              ap (value_or J cache_key_not_found) (has.values k)
              ∙ (ap (λ r. value_or J cache_key_not_found (after J p ms k r)) same
                  ∙ (after-IsListing J p o ms k listing
                      ∙ ap (λ r. kept J p k (value_or J cache_key_not_found r)) (sym same))),
        )
