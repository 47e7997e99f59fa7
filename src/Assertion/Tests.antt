-- ===== src/Assertion/Tests.antt =====
-- An assertion that is accepted twice, the second time with the extra round trip.
use libbrowserid.Prelude.{
  ℕ, ◌≡◌, inl, refl, Bool, true, false, List, Option, some, arith, if◌then◌else◌,
}
use libbrowserid.Prelude.Int.{ℤ, pos, ltb_ℤ, thousand_times, thousandth}
use libbrowserid.Status.{Result, good}
use libbrowserid.Base64.{codes, base64_url_decode, c_string}
use libbrowserid.Json.{json_object_set, set_json_timestamp_value, get_json_timestamp_value}
use libbrowserid.Json.Opts.{has_flag}
use libbrowserid.Json.Model.{model, model-IsJansson, number, members, member, end}
use libbrowserid.Jwt.{parse_jwt}
use libbrowserid.Jwt.Model.{two_texts, token}
use libbrowserid.Backed.{BackedAssertion, unpack_backed_assertion}
use libbrowserid.Context.{Identity}
use libbrowserid.Context.Model.{context}
use libbrowserid.Crypto.{digest_assertion}
use libbrowserid.Crypto.Model.{primitives, primitives-AreHonest}
use libbrowserid.Cache.{set_cache_object, get_cache_object}
use libbrowserid.Cache.Memory.{
  MemoryCache, memory_cache, memory_cache-IsCache, memory_cache_set_object, memory_cache_get_object,
}
use libbrowserid.Replay.{replay_record, update_replay_cache, check_replay_cache}
use libbrowserid.Assertion.{xrt_flag, verify_assertion}
use libbrowserid.Assertion.Fresh.{verify_assertion_once}

abbrev user : Identity model (List ℕ)
user = record {
  attributes = members (member (codes "exp") (number (pos 5000000)) end);
  private_attributes = members (member (codes "a-exp") (number (pos 2000000)) end);
  secret_handle = some (codes "secret");
}

abbrev empty : MemoryCache model
empty = record {
  name = codes "test";
  object = members end;
  read_only = false;
  last_changed = pos 0;
}

-- A verification that asks for the extra round trip from a time on.
abbrev accepts :
    Bool
    → ℤ
    → BackedAssertion model
    → Unit {0}
    → Option (Result (Identity model (List ℕ) × ℕ)) × Unit {0}
accepts remote now backed state =
    (some (good (user, if ltb_ℤ (pos 1500) now then 1048576 else 0)), state)

verify_assertion_once_example : has_flag 1048576 xrt_flag ≡ true
unfolding verify_assertion thousand_times thousandth unpack_backed_assertion parse_jwt
    base64_url_decode c_string check_replay_cache update_replay_cache replay_record digest_assertion
    json_object_set set_json_timestamp_value get_json_timestamp_value set_cache_object
    get_cache_object memory_cache_set_object memory_cache_get_object
verify_assertion_once_example =
    verify_assertion_once model two_texts primitives (MemoryCache model)
      (memory_cache model two_texts (pos 0)) (Unit {0}) accepts model-IsJansson
      (memory_cache-IsCache model model-IsJansson two_texts (pos 0)) primitives-AreHonest
      (context false 0 6) (some empty) tt tt token (pos 1000) (pos 1600) false false _
      (record { identity = user; expiry = pos 5000; flags = 1048576 }) refl
      (omega arith, omega arith) refl refl refl (inl refl) refl
