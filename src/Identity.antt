-- ===== src/Identity.antt =====
-- libbrowserid/bid_identity.c: the identity that is made from a verified assertion, and the subject
-- that a caller asks for.
mod Tests
use libbrowserid.Prelude.{
  ℕ, Bool, true, false, not, ◌&&◌, ◌||◌, List, [], ◌∷◌, Option, none, some, length, drop, ◌==◌,
  if◌then◌else◌,
}
use libbrowserid.Status.{
  Result, good, bad, BidError, ok, ◌>>=◌, missing_principal, bad_audience, bad_subject,
}
use libbrowserid.Base64.{codes}
use libbrowserid.Spn.{str_eq, hostify_spn}
use libbrowserid.Json.{Jansson, get, string_of, allocated, put}
use libbrowserid.Json.Opts.{has_flag}
use libbrowserid.Jwt.{split_at}
use libbrowserid.Verify.{is_ok, starts_with}
use libbrowserid.Backed.{BackedAssertion}
use libbrowserid.Context.{Context, Identity}
use libbrowserid.Authority.{authority_equal}
use libbrowserid.Crypto.{get_key_agreement_object, set_key_agreement_object}
use libbrowserid.Chain.{leaf_cert}

-- BID_VERIFY_FLAG_RP, BID_VERIFY_FLAG_VALIDATED_CERTS and BID_VERIFY_FLAG_X509.
abbrev pub rp_flag : ℕ
rp_flag = 16

abbrev pub certs_flag : ℕ
certs_flag = 17

abbrev pub x509_flag : ℕ
x509_flag = 18

module _ (J : Jansson) (secret : Type 0) where
  abbrev object_or : Option J.json → Result J.json
  object_or none = allocated J J.object
  object_or (some attributes) = good attributes

  -- `_BIDAllocIdentity`
  unfoldable pub alloc_identity : Option J.json → Result (Identity J secret)
  alloc_identity attributes = do
    public ← object_or attributes
    private ← allocated J J.object
    good (record { attributes = public; private_attributes = private; secret_handle = none })

  abbrev dh_of : J.json → Result J.json → Result J.json
  dh_of private (bad e) = good private
  dh_of private (good params) = do
    dh ← allocated J J.object
    dh' ← put J dh (codes "params") (some params) false
    set_key_agreement_object J private (some dh')

  -- The key agreement of `_BIDPopulateIdentity`; an assertion without one is no error.
  abbrev with_key_agreement : Context → J.json → J.json → Result J.json
  with_key_agreement context assertion private =
      if context.options.ecdh_keyex
      then dh_of private (get_key_agreement_object J (some assertion))
      else good private

  abbrev has_email : Option J.json → Result (Option J.json)
  has_email none = bad missing_principal
  has_email (some principal) = elim (J.object_get principal (codes "email")) [
    | none ↦ bad missing_principal
    | some email ↦ good (some email)
  ]

  -- The private attributes, from the payload of the assertion.
  unfoldable pub private_of : Context → J.json → J.json → Result J.json
  private_of context assertion private = do
    aud ← put J private (codes "aud") (J.object_get assertion (codes "aud")) false
    agreed ← with_key_agreement context assertion aud
    expiry ← put J agreed (codes "a-exp") (J.object_get assertion (codes "exp")) true
    nonce ← put J expiry (codes "nonce") (J.object_get assertion (codes "nonce")) false
    put J nonce (codes "opts") (J.object_get assertion (codes "opts")) false

  abbrev leaf_of : Bool → Identity J secret → Option J.json → Option J.json
  leaf_of true identity leaf = some identity.attributes
  leaf_of false identity leaf = leaf

  -- `_BIDPopulateIdentity` with the flags so far; `populate` is `_BIDPopulateX509Identity`.
  unfoldable pub populate_identity :
      Context
      → (BackedAssertion J → Identity J secret → ℕ → Result (Identity J secret))
      → BackedAssertion J
      → ℕ
      → Result (Identity J secret)
  unfolding private_of
  populate_identity context populate backed flags =
      let leaf = leaf_cert J backed.certificates in
      do
        identity ← alloc_identity leaf
        identity' ←
            if has_flag flags x509_flag then populate backed identity flags else good identity
        if has_flag flags rp_flag then good identity' else (do
          email ←
              has_email
                (get J (leaf_of (has_flag flags x509_flag) identity' leaf) (codes "principal"))
          attributes ← put J identity'.attributes (codes "sub") email false
          private ← private_of context backed.assertion.payload identity'.private_attributes
          good (record identity' { attributes = attributes; private_attributes = private }))

-- `_BIDSubjectCompare`; the flag is BID_VERIFY_FLAG_RP.
abbrev pub same_subject : Bool → List ℕ → List ℕ → Bool
same_subject true a1 a2 = authority_equal a1 a2
same_subject false a1 a2 = str_eq a1 a2

abbrev same_parts : Option (List ℕ × List ℕ) → Option (List ℕ × List ℕ) → Bool
same_parts (some (service, domain)) (some (name, host)) =
    (length service == length name) && authority_equal service name && authority_equal domain host
same_parts _ _ = false

-- `_BIDSRVNameEqualP`
pub srv_name_equal : List ℕ → List ℕ → Bool
srv_name_equal [] subject = false
srv_name_equal (c ∷ srv) subject =
    if c == b'_' then same_parts (split_at b'.' srv) (split_at b'/' subject) else false

module _ (J : Jansson) where
  abbrev is_subject : Bool → List ℕ → Option (List ℕ) → Bool
  is_subject rp subject none = false
  is_subject rp subject (some s) = same_subject rp s subject

  any_subject : Bool → List ℕ → List J.json → Bool
  any_subject rp subject [] = false
  any_subject rp subject (j ∷ js) =
      let rest = any_subject rp subject js in is_subject rp subject (J.string_value j) || rest

  abbrev items_subject : Bool → List ℕ → Option (List J.json) → Bool
  items_subject rp subject none = false
  items_subject rp subject (some js) = any_subject rp subject js

  abbrev value_subject : Bool → List ℕ → Option (List ℕ) → Option (List J.json) → Bool
  value_subject rp subject (some s) items = same_subject rp s subject
  value_subject rp subject none items = items_subject rp subject items

  -- `_BIDSubjectEqualP`: a string, or one of an array.
  unfoldable pub subject_equal : Bool → Option J.json → List ℕ → Bool
  unfolding any_subject
  subject_equal rp none subject = false
  subject_equal rp (some j) subject = value_subject rp subject (J.string_value j) (J.array_items j)

  abbrev is_text : List ℕ → Option (List ℕ) → Bool
  is_text want none = false
  is_text want (some s) = str_eq s want

  abbrev is_srv : List ℕ → Option (List ℕ) → Bool
  is_srv subject none = false
  is_srv subject (some srv) = srv_name_equal srv subject

  -- One element of the array of other names: BID_OID_PKIX_ON_DNSSRV and a string.
  abbrev other_name : List ℕ → J.json → Bool
  other_name subject j =
      is_text (codes "1.3.6.1.5.5.7.8.7") (string_of J (J.object_get j (codes "oid")))
      && is_srv subject (string_of J (J.object_get j (codes "value")))

  any_other_name : List ℕ → List J.json → Bool
  any_other_name subject [] = false
  any_other_name subject (j ∷ js) =
      let rest = any_other_name subject js in other_name subject j || rest

  abbrev items_of : Option J.json → List J.json
  items_of none = []
  items_of (some j) = elim (J.array_items j) [ none ↦ [] | some js ↦ js ]

  -- `_BIDOtherNameEqualP`; the identifiers are strings.
  unfoldable pub other_name_equal : Option J.json → List ℕ → Bool
  unfolding any_other_name
  other_name_equal names subject = any_other_name subject (items_of names)

  -- `_BIDEKUIsPresentP`
  pub eku_present : List J.json → List ℕ → Bool
  eku_present [] oid = false
  eku_present (j ∷ js) oid = let rest = eku_present js oid in is_text oid (J.string_value j) || rest

  -- `_BIDValidateEKUs`, with BID_CONTEXT_GSS and the attributes: no usage or any usage; else for
  -- GSS a name of the service that the usage is for, and for HTTP the usage itself.
  unfoldable pub validate_ekus : Bool → J.json → List ℕ → BidError
  unfolding eku_present
  validate_ekus gss attributes subject = elim (J.object_get attributes (codes "eku")) [
    | none ↦ ok
    | some eku ↦
        let usages = items_of (some eku) in
        if (length usages == 1) && eku_present usages (codes "2.5.29.37.0")
        then ok
        else if (if gss
            then authority_equal (take_five subject) (codes "http/")
            else eku_present usages (codes "1.3.6.1.5.5.7.3.1"))
        then ok
        else bad_subject
  ]
    where
      take_five : List ℕ → List ℕ
      take_five (a ∷ b ∷ c ∷ d ∷ e ∷ _) = a ∷ b ∷ c ∷ d ∷ e ∷ []
      take_five s = s

  -- The host of the name that the caller asks for, in `_BIDValidateSubject`.
  abbrev host_of : Bool → List ℕ → Result (List ℕ)
  host_of true subject = do host ← hostify_spn subject; good (drop 5 host)
  host_of false subject =
      if starts_with subject (codes "http://")
      then good (drop 7 subject)
      else if starts_with subject (codes "https://")
      then good (drop 8 subject)
      else bad bad_audience

  abbrev matches : Bool → J.json → Option J.json → List ℕ → Bool
  matches rp attributes value name =
      subject_equal rp value name || subject_equal rp (J.object_get attributes (codes "sub")) name

  abbrev present : Option J.json → Bool
  present none = false
  present (some _) = true

  abbrev validate_host : Bool → J.json → J.json → List ℕ → Result (List ℕ) → BidError
  validate_host gss attributes principal subject (bad e) = e
  validate_host gss attributes principal subject (good host) =
      let names = J.object_get principal (codes "othername") in
      if other_name_equal names subject
      then ok
      else if present names
      then bad_subject
      else if matches true attributes (J.object_get principal (codes "hostname")) host
      then validate_ekus gss attributes subject
      else bad_subject

  abbrev validate_name : Bool → Bool → J.json → List ℕ → Option J.json → BidError
  validate_name gss rp attributes subject none = missing_principal
  validate_name gss true attributes subject (some principal) =
      validate_host gss attributes principal subject (host_of gss subject)
  validate_name gss false attributes subject (some principal) =
      if matches false attributes (J.object_get principal (codes "email")) subject
      then ok
      else bad_subject

  -- `_BIDValidateSubject`, with BID_CONTEXT_GSS, BID_VERIFY_FLAG_RP and the attributes.
  unfoldable pub validate_subject : Bool → Bool → J.json → Option (List ℕ) → BidError
  unfolding subject_equal other_name_equal validate_ekus
  validate_subject gss rp attributes none = ok
  validate_subject gss rp attributes (some subject) =
      validate_name gss rp attributes subject (J.object_get attributes (codes "principal"))
