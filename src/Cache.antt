-- ===== src/Cache.antt =====
-- libbrowserid/bid_cache.c: a cache behind a table of operations, and the loop over its objects.
-- The state of a cache is what its operations work on.
pub mod Memory
pub mod Purge
mod Tests
use libbrowserid.Prelude.{
  ℕ, zero, suc, ◌≡◌, ◌≢◌, Bool, true, false, List, [], ◌∷◌, Option, none, some, if◌then◌else◌,
}
use libbrowserid.Status.{
  Result, good, bad, BidError, ok, ◌>>=◌, invalid_parameter, not_implemented, cache_key_not_found,
  no_more_items,
}
use libbrowserid.Json.{Jansson}
use libbrowserid.Jwt.{JsonText}
use libbrowserid.Verify.{is_ok}

-- `BIDCacheIteratorDesc`: the members that the iterator has not passed.
abbrev pub Cookie : Jansson → Type 0
Cookie J = List (List ℕ × J.json)

-- `BIDCacheOps`, whose entries may be NULL. The states are those of one kind of cache.
pub record Operations (J : Jansson) (S : Type 0) : Type 0 where
  pub get_object : Option (S → List ℕ → Result J.json)
  pub set_object : Option (S → List ℕ → Option J.json → BidError × S)
  pub remove_object : Option (S → List ℕ → BidError × S)
  pub first_object : Option (S → Result (Cookie J × (List ℕ × J.json)))
  pub next_object : Option (S → Cookie J → Result (Cookie J × (List ℕ × J.json)))

module _ (J : Jansson) (T : JsonText J) where
  abbrev pub start_of : Option (Cookie J) → Result (Cookie J)
  start_of none = bad cache_key_not_found
  start_of (some []) = bad cache_key_not_found
  start_of (some (m ∷ ms)) = good (m ∷ ms)

  -- `_BIDCacheIteratorAlloc`; an object without members has no iterator.
  pub cache_iterator_alloc : Option J.json → Result (Cookie J)
  cache_iterator_alloc none = bad invalid_parameter
  cache_iterator_alloc (some json) = start_of (T.object_items json)

-- `_BIDCacheIteratorNext`
unfoldable pub cache_iterator_next :
    (J : Jansson) → Cookie J → Result (Cookie J × (List ℕ × J.json))
cache_iterator_next J [] = bad no_more_items
cache_iterator_next J (m ∷ ms) = good (ms, m)

abbrev pub handle : {S : Type 0} → BidError × S → BidError × Option S
handle (err, s) = (err, some s)

module _ (J : Jansson) (S : Type 0) (ops : Operations J S) where
  abbrev get_with : Option (S → List ℕ → Result J.json) → S → List ℕ → Result J.json
  get_with none s key = bad not_implemented
  get_with (some get_object) s key = get_object s key

  -- `_BIDGetCacheObject`, of a cache and a key that may be NULL.
  unfoldable pub get_cache_object : Option S → Option (List ℕ) → Result J.json
  get_cache_object none key = bad invalid_parameter
  get_cache_object (some s) none = bad invalid_parameter
  get_cache_object (some s) (some key) = get_with ops.get_object s key

  abbrev set_with :
      Option (S → List ℕ → Option J.json → BidError × S)
      → S
      → List ℕ
      → Option J.json
      → BidError × Option S
  set_with none s key value = (not_implemented, some s)
  set_with (some set_object) s key value = handle (set_object s key value)

  -- `_BIDSetCacheObject`
  unfoldable pub set_cache_object : Option S → Option (List ℕ) → Option J.json → BidError × Option S
  set_cache_object none key value = (invalid_parameter, none)
  set_cache_object (some s) none value = (invalid_parameter, some s)
  set_cache_object (some s) (some key) value = set_with ops.set_object s key value

  abbrev remove_with : Option (S → List ℕ → BidError × S) → S → List ℕ → BidError × S
  remove_with none s key = (not_implemented, s)
  remove_with (some remove_object) s key = remove_object s key

  -- `_BIDRemoveCacheObject`, of a cache and a key that are not NULL.
  unfoldable pub remove_cache_object : S → List ℕ → BidError × S
  remove_cache_object s key = remove_with ops.remove_object s key

  abbrev call_back :
      (S → List ℕ → J.json → BidError × S) → List ℕ × J.json → BidError × S → BidError × S
  call_back callback (key, value) (err2, s) = if is_ok err2 then callback s key value else (err2, s)

  -- `_BIDGetNextCacheObject`
  abbrev next_with :
      Option (S → Cookie J → Result (Cookie J × (List ℕ × J.json)))
      → S
      → Cookie J
      → Result (Cookie J × (List ℕ × J.json))
  next_with none s cookie = bad not_implemented
  next_with (some next_object) s cookie = next_object s cookie

  -- The error that is returned, from the one that ended the loop and the first one of the callback.
  abbrev ended : BidError → BidError → BidError
  ended no_more_items err2 = err2
  ended e err2 = e

  abbrev perform_next :
      (Cookie J → List ℕ × J.json → BidError × S → Option (BidError × S))
      → BidError × S
      → Result (Cookie J × (List ℕ × J.json))
      → Option (BidError × S)
  perform_next rest (err2, s) (bad e) = some (ended e err2, s)
  perform_next rest (err2, s) (good (cookie, m)) = rest cookie m (err2, s)

  -- The loop of `_BIDPerformCacheObjects` from an object on, on fuel; the pair is the first error of
  -- the callback, and the cache.
  pub perform_loop :
      ℕ
      → (S → List ℕ → J.json → BidError × S)
      → Cookie J
      → List ℕ × J.json
      → BidError × S
      → Option (BidError × S)
  perform_loop zero callback cookie m state = none
  perform_loop (suc n) callback cookie m state =
      perform_next (perform_loop n callback) (call_back callback m state)
        (next_with ops.next_object (call_back callback m state).1 cookie)

  abbrev first_with :
      Option (S → Result (Cookie J × (List ℕ × J.json))) → S → Result (Cookie J × (List ℕ × J.json))
  first_with none s = bad not_implemented
  first_with (some first_object) s = first_object s

  abbrev pub perform_from :
      ℕ
      → (S → List ℕ → J.json → BidError × S)
      → S
      → Result (Cookie J × (List ℕ × J.json))
      → Option (BidError × S)
  perform_from n callback s (bad e) = some (ended e ok, s)
  perform_from n callback s (good (cookie, m)) = perform_loop n callback cookie m (ok, s)

  -- `_BIDPerformCacheObjects`, on as much fuel as there are objects.
  pub perform_cache_objects : ℕ → (S → List ℕ → J.json → BidError × S) → S → Option (BidError × S)
  unfolding perform_loop
  perform_cache_objects n callback s = perform_from n callback s (first_with ops.first_object s)

  -- `_BIDRemoveCacheObjectIfPredicateTrue`
  pub remove_if : (List ℕ → J.json → Bool) → S → List ℕ → J.json → BidError × S
  unfolding remove_cache_object
  remove_if predicate s key value =
      (ok, if predicate key value then (remove_cache_object s key).1 else s)

  -- `_BIDPurgeCache`
  unfoldable pub purge_cache : ℕ → (List ℕ → J.json → Bool) → S → Option (BidError × S)
  unfolding perform_cache_objects remove_if
  purge_cache n predicate s = perform_cache_objects n (remove_if predicate) s

-- What the clients of a cache rely on: an object that is stored is found, and no other changes.
pub record IsCache (J : Jansson) (S : Type 0) (ops : Operations J S) : Type 0 where
  pub get-set :
      (s : S) (s' : Option S) (k : List ℕ) (v : J.json)
      → set_cache_object J S ops (some s) (some k) (some v) ≡ (ok, s')
      → get_cache_object J S ops s' (some k) ≡ good v
  pub get-set_ne :
      (s : S) (s' : Option S) (k l : List ℕ) (v : J.json)
      → k ≢ l
      → set_cache_object J S ops (some s) (some k) (some v) ≡ (ok, s')
      → get_cache_object J S ops s' (some l) ≡ get_cache_object J S ops (some s) (some l)
