-- ===== src/Crypto/Tests.antt =====
-- The digest of a text, and the names of curves.
use libbrowserid.Prelude.{◌≡◌, refl, some}
use libbrowserid.Status.{good, bad, unknown_ec_curve, unknown_algorithm}
use libbrowserid.Base64.{codes}
use libbrowserid.Json.{json_object_set}
use libbrowserid.Json.Model.{model, text, members, member, end}
use libbrowserid.Crypto.{digest_assertion, get_ecdh_curve}
use libbrowserid.Crypto.Model.{primitives}

digest_of_text : digest_assertion model primitives (codes "abc") ≡ good (text (codes "abc"))
unfolding digest_assertion json_object_set
digest_of_text = refl

curve_p384 :
    get_ecdh_curve model (
      some (
        members (
          member
            (codes "kty")
            (text (codes "EC"))
            (member (codes "crv") (text (codes "P-384")) end))))
    ≡ good 384
unfolding get_ecdh_curve
curve_p384 = refl

curve_unknown :
    get_ecdh_curve model (some (members (member (codes "kty") (text (codes "EC")) end)))
    ≡ bad unknown_ec_curve
unfolding get_ecdh_curve
curve_unknown = refl

curve_missing : get_ecdh_curve model (some (members end)) ≡ bad unknown_algorithm
unfolding get_ecdh_curve
curve_missing = refl
