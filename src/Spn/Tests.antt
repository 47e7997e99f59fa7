-- ===== src/Spn/Tests.antt =====
-- Runs of the functions on service names.
use libbrowserid.Prelude.{ℕ, ◌≡◌, refl, false, List, ◌++◌}
use libbrowserid.Status.{good}
use libbrowserid.Base64.{codes}
use libbrowserid.Spn.{hostify_spn, host_prefix}
use libbrowserid.Spn.Hostify.{IsName, hostify_spn-hostify_spn}
use libbrowserid.Spn.Plain.{hostify_spn-append, realm}

plain : hostify_spn (codes "HTTP/WWW.Example.com@REALM") ≡ good (codes "host/www.example.com")
unfolding hostify_spn
plain = refl

escaped : hostify_spn (codes "http/a\\/b/c") ≡ good (codes "host/a\\/b")
unfolding hostify_spn
escaped = refl

hostify_spn-hostify_spn_example :
    (x : List ℕ) × (codes "host/www.example.com" ≡ host_prefix ++ x)
    × IsName false x
    × (hostify_spn (codes "host/www.example.com") ≡ good (codes "host/www.example.com"))
hostify_spn-hostify_spn_example =
    hostify_spn-hostify_spn (codes "HTTP/WWW.Example.com@REALM") (codes "host/www.example.com")
      plain

hostify_spn-append_example : hostify_spn (codes "http/Abc@R") ≡ good (codes "host/abc")
hostify_spn-append_example =
    hostify_spn-append (codes "http") (codes "Abc") (codes "@R") (refl, (refl, (refl, (refl, tt))))
      (refl, (refl, (refl, tt))) realm
