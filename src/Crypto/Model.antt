-- ===== src/Crypto/Model.antt =====
-- Primitives for tests: a digest that is the text itself, and a key that is the salt.
use libbrowserid.Prelude.{ℕ, true, List, some}
use libbrowserid.Status.{good, bad, crypto_error}
use libbrowserid.Base64.{codes}
use libbrowserid.Json.{put}
use libbrowserid.Json.Model.{model}
use libbrowserid.Crypto.{Primitives}
use libbrowserid.Crypto.Honest.{AreHonest, stored-Honest}

abbrev pub primitives : Primitives model
primitives = record {
  secret = List ℕ;
  make_digest_internal = λ value info. put model info (codes "dig") (some value) true;
  derive_key = λ secret salt. good salt;
  secret_agreement = λ dh params. good (codes "shared");
  generate_ecdh_key = λ params. bad crypto_error;
  equal = λ a b. true;
}

pub primitives-AreHonest : AreHonest model primitives
primitives-AreHonest = record {
  digest = λ v info. stored-Honest model _;
  derive = λ s salt. tt;
  agreement = λ dh params. tt;
}
