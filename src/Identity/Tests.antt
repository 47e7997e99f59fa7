-- ===== src/Identity/Tests.antt =====
-- Subjects: a service name in a certificate, and the case of an address.
use libbrowserid.Prelude.{◌≡◌, refl, true, false, some}
use libbrowserid.Status.{ok, bad_subject, missing_principal}
use libbrowserid.Base64.{codes}
use libbrowserid.Json.Model.{model, Value, text, members, items, member, end, cons, nil}
use libbrowserid.Jwt.{split_at}
use libbrowserid.Spn.{hostify_spn}
use libbrowserid.Identity.{srv_name_equal, validate_subject}

srv_names :
    (srv_name_equal (codes "_ldap.example.com") (codes "LDAP/Example.COM") ≡ true)
    × (srv_name_equal (codes "ldap.example.com") (codes "ldap/example.com") ≡ false)
    × (srv_name_equal (codes "_ldap.example.com") (codes "imap/example.com") ≡ false)
unfolding srv_name_equal split_at
srv_names = (refl, refl, refl)

abbrev mail : Value
mail =
    members (
      member (codes "principal") (members (member (codes "email") (text (codes "a@b.org")) end))
        end)

abbrev web : Value
web = members (
    member (codes "principal")
      (members (member (codes "hostname") (items (cons (text (codes "www.b.org")) nil)) end)) end)

subjects :
    (validate_subject model true false mail (some (codes "a@b.org")) ≡ ok)
    × (validate_subject model true false mail (some (codes "A@b.org")) ≡ bad_subject)
    × (validate_subject model true true web (some (codes "http/WWW.b.org")) ≡ ok)
    × (validate_subject model false true web (some (codes "https://www.b.org")) ≡ ok)
    × (validate_subject model true true (members end) (some (codes "http/x")) ≡ missing_principal)
unfolding validate_subject hostify_spn
subjects = (refl, refl, refl, refl, refl)
