-- ===== src/Cache/Memory.antt =====
-- libbrowserid/bid_mcache.c: a cache in memory, an object of JSON behind a lock.
use libbrowserid.Prelude.{
  ℕ, ◌≡◌, refl, sym, ap, ◌∙◌, Bool, true, false, List, Option, none, some, if◌then◌else◌,
}
use libbrowserid.Prelude.Int.{ℤ, pos}
use libbrowserid.Status.{
  Result, good, bad, BidError, ok, ◌>>=◌, invalid_parameter, cache_key_not_found,
  cache_permission_denied, no_memory,
}
use libbrowserid.Json.{Jansson, IsJansson, json_object_set, json_object_del}
use libbrowserid.Json.Access.{json_object_set-Updated}
use libbrowserid.Jwt.{JsonText}
use libbrowserid.Verify.{is_ok}
use libbrowserid.Cache.{
  Cookie, Operations, cache_iterator_alloc, cache_iterator_next, get_cache_object, set_cache_object,
  handle, IsCache,
}

-- `BIDMemoryCache`, without its lock; `read_only` is BID_CACHE_FLAG_READONLY.
pub record MemoryCache (J : Jansson) : Type 0 where
  pub name : List ℕ
  pub object : J.json
  pub read_only : Bool
  pub last_changed : ℤ

module _ (J : Jansson) where
  abbrev pub value_or : BidError → Option J.json → Result J.json
  value_or e none = bad e
  value_or e (some v) = good v

  -- `_BIDMemoryCacheGetObject`
  unfoldable pub memory_cache_get_object : MemoryCache J → List ℕ → Result J.json
  memory_cache_get_object mc key = value_or cache_key_not_found (J.object_get mc.object key)

  abbrev pub store : ℤ → MemoryCache J → BidError × J.json → BidError × MemoryCache J
  store now mc (err, object) =
      if is_ok err
      then (ok, record mc { object = object; last_changed = now })
      else (err, record mc { object = object })

  abbrev pub change : ℤ → MemoryCache J → BidError × J.json → BidError × MemoryCache J
  change now mc changed =
      if mc.read_only then (cache_permission_denied, mc) else store now mc changed

  -- `_BIDMemoryCacheSetOrRemoveObject` for `_BIDMemoryCacheSetObject`, with the time that it reads.
  unfoldable pub memory_cache_set_object :
      ℤ → MemoryCache J → List ℕ → Option J.json → BidError × MemoryCache J
  unfolding json_object_set
  memory_cache_set_object now mc key none = (invalid_parameter, mc)
  memory_cache_set_object now mc key (some val) =
      change now mc (json_object_set J mc.object key (some val) false)

  -- `_BIDMemoryCacheSetOrRemoveObject` for `_BIDMemoryCacheRemoveObject`.
  unfoldable pub memory_cache_remove_object : ℤ → MemoryCache J → List ℕ → BidError × MemoryCache J
  unfolding json_object_del
  memory_cache_remove_object now mc key = change now mc (json_object_del J mc.object key false)

  -- `_BIDMemoryCacheDestroy`
  pub memory_cache_destroy : MemoryCache J → BidError × MemoryCache J
  memory_cache_destroy mc = elim J.object [
    | none ↦ (no_memory, mc)
    | some o ↦ (ok, record mc { object = o })
  ]

  -- `_BIDMemoryCacheAcquire`
  pub memory_cache_acquire : List ℕ → Bool → Result (MemoryCache J)
  memory_cache_acquire name read_only = elim J.object [
    | none ↦ bad no_memory
    | some o ↦
        good (record { name = name; object = o; read_only = read_only; last_changed = pos 0 })
  ]

module _ (J : Jansson) (T : JsonText J) where
  -- `_BIDMemoryCacheFirstObject`, whose iterator has a copy of the object.
  unfoldable pub memory_cache_first_object : MemoryCache J → Result (Cookie J × (List ℕ × J.json))
  unfolding cache_iterator_alloc cache_iterator_next
  memory_cache_first_object mc = do
    cookie ← cache_iterator_alloc J T (J.copy mc.object)
    cache_iterator_next J cookie

  -- `_BIDMemoryCacheNextObject`
  unfoldable pub memory_cache_next_object :
      MemoryCache J → Cookie J → Result (Cookie J × (List ℕ × J.json))
  unfolding cache_iterator_next
  memory_cache_next_object mc cookie = cache_iterator_next J cookie

  -- `_BIDMemoryCache`, with the time of the system.
  abbrev pub memory_cache : ℤ → Operations J (MemoryCache J)
  memory_cache now = record {
    get_object = some (memory_cache_get_object J);
    set_object = some (memory_cache_set_object J now);
    remove_object = some (memory_cache_remove_object J now);
    first_object = some memory_cache_first_object;
    next_object = some memory_cache_next_object;
  }

-- A change that succeeds is one of the object.
changed :
    (J : Jansson) (now : ℤ) (mc : MemoryCache J) (r : BidError × J.json)
    (mc' : Option (MemoryCache J))
    → handle (change J now mc r) ≡ (ok, mc')
    → (o : J.json) × (r ≡ (ok, o)) × (mc' ≡ some (record mc { object = o; last_changed = now }))
changed J now mc (e, o) mc' h = from mc.read_only e h
  where
    from :
        (b : Bool) (e : BidError)
        → handle (if b then (cache_permission_denied, mc) else store J now mc (e, o)) ≡ (ok, mc')
        → (o' : J.json) × (◌≡◌ {A = BidError × J.json} (e, o) (ok, o'))
          × (mc' ≡ some (record mc { object = o'; last_changed = now }))
    from true e h = absurd (let c : cache_permission_denied ≡ ok = ap (λ p. p.0) h in cc)
    from false ok h = (o, refl, sym (ap (λ p. p.1) h))
    from false e h = absurd (let c : e ≡ ok = ap (λ p. p.0) h in cc)

module _ (J : Jansson) (L : IsJansson J) (T : JsonText J) (now : ℤ) where
  found :
      (mc' : Option (MemoryCache J)) (k : List ℕ) (mc : MemoryCache J)
      → mc' ≡ some mc
      → get_cache_object J (MemoryCache J) (memory_cache J T now) mc' (some k)
        ≡ value_or J cache_key_not_found (J.object_get mc.object k)
  unfolding get_cache_object memory_cache_get_object
  found mc' k mc e =
      ap (λ c. get_cache_object J (MemoryCache J) (memory_cache J T now) c (some k)) e

  -- An object that is set in a cache in memory is found, and the other objects are as before.
  pub memory_cache-IsCache : IsCache J (MemoryCache J) (memory_cache J T now)
  unfolding get_cache_object set_cache_object memory_cache_get_object memory_cache_set_object
  memory_cache-IsCache = record {
    get-set = λ mc mc' k v e.
        let (o, r, same) = changed J now mc (json_object_set J mc.object k (some v) false) mc' e in
        let u = json_object_set-Updated J L mc.object o v k false r in
        found mc' k _ same ∙ ap (value_or J cache_key_not_found) u.here;
    get-set_ne = λ mc mc' k l v ne e.
        let (o, r, same) = changed J now mc (json_object_set J mc.object k (some v) false) mc' e in
        let u = json_object_set-Updated J L mc.object o v k false r in
        found mc' l _ same ∙ ap (value_or J cache_key_not_found) (u.elsewhere l ne);
  }
