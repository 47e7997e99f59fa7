-- ===== src/Cache/Tests.antt =====
-- A cache in memory with two objects.
use libbrowserid.Prelude.{
  ℕ, ◌≡◌, refl, sym, ap, ◌∙◌, Bool, true, false, List, [], ◌∷◌, Option, none, some, Bool-cases, inl,
  inr, arith, if◌then◌else◌,
}
use libbrowserid.Prelude.Int.{pos}
use libbrowserid.Status.{ok, cache_permission_denied}
use libbrowserid.Base64.{codes}
use libbrowserid.Spn.{str_eq}
use libbrowserid.Json.Model.{model, model-IsJansson, Value, Members, text, members, member, end}
use libbrowserid.Jwt.{JsonText}
use libbrowserid.Cache.{IsCache, get_cache_object, purge_cache}
use libbrowserid.Cache.Memory.{
  MemoryCache, memory_cache, memory_cache-IsCache, memory_cache_set_object,
}
use libbrowserid.Cache.Purge.{occurs, kept, IsListing, get-purge_cache}

abbrev members_of : Members → List (List ℕ × Value)
members_of end = []
members_of (member k v ms) = (k, v) ∷ members_of ms

abbrev listed : Value → Option (List (List ℕ × Value))
listed (members ms) = some (members_of ms)
listed _ = none

abbrev texts : JsonText model
texts = record { dumps = λ v. none; loads = λ s. none; object_items = listed }

abbrev entries : Members
entries = member (codes "a") (text (codes "old")) (member (codes "b") (text (codes "new")) end)

abbrev two : Value
two = members entries

abbrev small : MemoryCache model
small = record { name = codes "test"; object = two; read_only = false; last_changed = pos 0 }

abbrev is_old : List ℕ → Value → Bool
is_old k (text s) = str_eq s (codes "old")
is_old k _ = false

lookup→occurs :
    (ms : Members) (k : List ℕ) (v : Value)
    → model.object_get (members ms) k ≡ some v
    → occurs model k (members_of ms) ≡ true
lookup→occurs end k v e = absurd cc
lookup→occurs (member l w ms) k v e = elim (Bool-cases (str_eq k l)) [
  | inl same ↦ rw same refl
  | inr differ ↦ rw differ (
      lookup→occurs ms k v
        (sym (ap (λ b. if b then some w else model.object_get (members ms) k) differ) ∙ e))
]

memory_cache-IsCache_example : IsCache model (MemoryCache model) (memory_cache model texts (pos 7))
memory_cache-IsCache_example = memory_cache-IsCache model model-IsJansson texts (pos 7)

two-IsListing :
    IsListing model two ((codes "a", text (codes "old")) ∷ (codes "b", text (codes "new")) ∷ [])
two-IsListing = record { sound = (refl, (refl, tt)); complete = lookup→occurs entries }

get-purge_cache_example :
    (mc' : MemoryCache model) × (purge_cache model
        (MemoryCache model)
        (memory_cache model texts (pos 7))
        2
        is_old
        small
      ≡ some (ok, mc'))
    × ((k : List ℕ)
        → get_cache_object model
            (MemoryCache model)
            (memory_cache model texts (pos 7))
            (some mc')
            (some k)
          ≡ kept model is_old k (
              get_cache_object model
                (MemoryCache model)
                (memory_cache model texts (pos 7))
                (some small)
                (some k)))
get-purge_cache_example =
    get-purge_cache model model-IsJansson texts (pos 7) is_old 2 small two _ (omega arith) refl refl
      refl two-IsListing

set_read_only :
    (memory_cache_set_object model
      (pos 7)
      (record small { read_only = true })
      (codes "a")
      (some (text []))).0
    ≡ cache_permission_denied
unfolding memory_cache_set_object
set_read_only = refl
