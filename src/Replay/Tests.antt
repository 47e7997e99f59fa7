-- ===== src/Replay/Tests.antt =====
-- An assertion that is recorded in a cache in memory, without a ticket and with one.
use libbrowserid.Prelude.{ℕ, ◌≡◌, refl, Bool, true, false, List, Option, some, arith}
use libbrowserid.Prelude.Int.{pos, ◌+ℤ◌, thousand_times}
use libbrowserid.Status.{replayed_assertion}
use libbrowserid.Base64.{codes, base64_url_encode}
use libbrowserid.Json.{
  json_object_set, set_json_timestamp_value, get_json_timestamp_value, json_binary_value,
}
use libbrowserid.Json.Model.{model, model-IsJansson, number, members, member, end}
use libbrowserid.Jwt.Model.{two_texts}
use libbrowserid.Context.{Identity}
use libbrowserid.Context.Model.{context}
use libbrowserid.Crypto.{digest_assertion, derive_session_subkey, save_key_agreement_strength}
use libbrowserid.Cache.{set_cache_object}
use libbrowserid.Crypto.Model.{primitives, primitives-AreHonest}
use libbrowserid.Cache.Memory.{
  MemoryCache, memory_cache, memory_cache-IsCache, memory_cache_set_object,
}
use libbrowserid.Replay.{update_replay_cache, check_replay_cache, replay_record}
use libbrowserid.Replay.Detected.{check-update_replay_cache}

abbrev user : Identity model (List ℕ)
user = record {
  attributes = members (member (codes "exp") (number (pos 5000000)) end);
  private_attributes = members (member (codes "a-exp") (number (pos 2000000)) end);
  secret_handle = some (codes "secret");
}

abbrev empty : MemoryCache model
empty = record {
  name = codes "test";
  object = members end;
  read_only = false;
  last_changed = pos 0;
}

abbrev updated : Bool → ℕ → Option (MemoryCache model)
updated reauth lifetime =
    (update_replay_cache model primitives (MemoryCache model) (memory_cache model two_texts (pos 0))
      (context reauth lifetime 6) (some empty) user (codes "a.b.c") (pos 1000) 0 false).1

check-update_replay_cache_example :
    check_replay_cache model primitives
      (MemoryCache model)
      (memory_cache model two_texts (pos 0))
      (updated true 600)
      (codes "a.b.c")
      (pos 1599)
    ≡ replayed_assertion
unfolding update_replay_cache digest_assertion replay_record set_cache_object json_object_set
    memory_cache_set_object ◌+ℤ◌ thousand_times set_json_timestamp_value get_json_timestamp_value
    derive_session_subkey json_binary_value base64_url_encode save_key_agreement_strength
check-update_replay_cache_example =
    check-update_replay_cache model model-IsJansson primitives (MemoryCache model)
      (memory_cache model two_texts (pos 0))
      (memory_cache-IsCache model model-IsJansson two_texts (pos 0)) primitives-AreHonest
      (context true 600 6) (some empty) user (codes "a.b.c") (pos 1000) (pos 1599) 0 false
      (omega arith, omega arith) refl
