-- ===== src/Lib.antt =====
-- libbrowserid: a C library for BrowserID (Mozilla Persona) assertions, and a GSS-API mechanism on
-- top of it.
--
-- The library (libbrowserid/) acquires and verifies assertions: JSON web tokens with a chain of
-- certificates, carried as base64url text. The mechanism (mech_browserid/) exchanges them in framed
-- tokens and then protects messages, whose sequence numbers it checks.
--
-- Modelled:
--   Token     mech_browserid/util_token.c: DER lengths, `tokenSize`, `makeTokenHeader`,
--             `verifyTokenHeader`.
--   Sequence  mech_browserid/util_ordering.c: the queue of received numbers, `queue_insert`,
--             `sequenceInit`, `sequenceCheck`. Window is the abstract view, an increasing list of
--             numbers that the circular array stands for.
--   Oid       mech_browserid/util_oid.c, util_mech.c: identifiers of an integer suffix, and the mechanisms
--             of encryption types.
--   Base64    libbrowserid/bid_base64.c: both alphabets, encoder and decoder.
--   Jwt       libbrowserid/bid_jwt.c: `_BIDValidateJWTHeader`, `_BIDParseJWT`, `_BIDMakeSignatureData`
--             and the end of `_BIDMakeSignature`; `_BIDEncodeJson` and `_BIDDecodeJson`.
--   Keys      libbrowserid/bid_crypto.c: `_BIDKeyMatchesP`, `_BIDFindKeyInKeyset`; bid_jwt.c:
--             `_BIDVerifySignature` and, in Make, `_BIDMakeSignature`. The table of algorithms is a
--             parameter.
--   Crypto    libbrowserid/bid_crypto.c: digests, key agreement, the secret of an identity and the
--             keys derived from it. The primitives are a parameter.
--   Backed    libbrowserid/bid_util.c: `_BIDUnpackBackedAssertion`; in Pack `_BIDPackBackedAssertion`.
--   Spn       libbrowserid/bid_util.c: `_BIDHostifySpn`.
--   Json      libbrowserid/bid_util.c: members of JSON objects (binary values, times), and in Opts the
--             protocol options, in Strings the arrays of strings.
--   Verify    libbrowserid/bid_verify.c: `_BIDValidateExpiry`, `_BIDValidateAudience` with the host
--             alias and the channel bindings.
--   Context   libbrowserid/bid_private.h: the parameters of a context, an identity.
--   Cache     libbrowserid/bid_cache.c: the operations on a cache, the loop over its objects, purging;
--             in Memory bid_mcache.c, the cache in memory.
--   Replay    libbrowserid/bid_rcache.c: what is recorded of an assertion, the check, the update.
--   Authority libbrowserid/bid_authority.c: the document of an authority, from the cache or retrieved,
--             its key, and who may issue for a domain.
--   Chain     libbrowserid/bid_verify.c: the issuer and the chain of certificates.
--   Identity  libbrowserid/bid_identity.c: the identity made from an assertion, the subject that a
--             caller asks for.
--   Local     libbrowserid/bid_verify.c: `_BIDVerifyLocal`.
--   Assertion libbrowserid/bid_identity.c: `BIDVerifyAssertion`, with the replay cache.
--   Accept    mech_browserid/accept_sec_context.c: the acceptor as a state machine.
--   Status, Gss   the codes of libbrowserid/browserid.h and of GSS-API that they return.
--   Prelude   lists, tests, masks and integers.
--
-- Names follow the source in snake case, and each definition's comment names its function. Numbers
-- are natural numbers; where the source's width matters the remainder is written out. Masks and
-- shifts are quotients and remainders, except where a mask is a value of the state. A buffer is the
-- list of its bytes from the pointer on, and an access outside it is a result of its own (`fault`,
-- `overread`). Loops with a counter are structural recursions on the rounds that are left. The loop
-- of the base64 decoder runs on fuel, one more than the length of the string: a round takes at least
-- two characters, and no result is `stuck`. The search of a key set goes into its keys on fuel, and
-- one more than the depth of the set is enough. The octets of an identifier's suffix, an `int`, are
-- written in five rounds, and counted in one more; a negative suffix is never counted. The loop over
-- the objects of a cache runs on as much fuel as there are objects.
--
-- The JSON library is a parameter, the record `Jansson` of its operations; `IsJansson` holds what the
-- source relies on, and Json.Model an implementation that has these laws. `JsonText` adds the text
-- of JSON. So are the operations of a cache (`Operations`, with the laws `IsCache`, which the cache in
-- memory has), the cryptographic primitives (`Primitives`, `AreHonest`), the verification of X.509
-- chains and of re-authentication (`Verifiers`, bid_x509.c and bid_reauth.c), and the retrieval of a
-- document over HTTP. What a call of the acceptor finds, with the outcome of `BIDVerifyAssertion`, is
-- the record `Call`. Times are integers whose differences do not overflow.
--
-- Not modelled: allocation that fails, freeing, input and output, the cryptographic, HTTP, JSON and
-- Kerberos libraries that the source calls, and the files that are not named above.
pub mod Prelude
pub mod Gss
pub mod Token
pub mod Sequence
pub mod Status
pub mod Base64
pub mod Oid
pub mod Spn
pub mod Json
pub mod Verify
pub mod Jwt
pub mod Backed
pub mod Keys
pub mod Cache
pub mod Context
pub mod Crypto
pub mod Replay
pub mod Authority
pub mod Chain
pub mod Identity
pub mod Local
pub mod Assertion
pub mod Accept
