-- ===== src/Gss.antt =====
-- The GSS-API status values that the mechanism in mech_browserid returns (gssapi.h).
use libbrowserid.Prelude.{Bool, true, false}

-- The routine and supplementary part of a major status; `service_unavailable` is
-- GSS_S_UNAVAILABLE, and `prompting_needed` is GSS_S_CRED_UNAVAIL
-- with GSS_S_PROMPTING_NEEDED.
pub data Major : Type 0 where
  complete failure defective_token bad_mech : Major
  gap_token duplicate_token old_token unseq_token : Major
  continue_needed bad_name cred_unavail prompting_needed credentials_expired bad_bindings : Major
  bad_status bad_sig service_unavailable : Major

-- GSS_ERROR
abbrev pub is_error : Major → Bool
is_error complete = false
is_error gap_token = false
is_error duplicate_token = false
is_error old_token = false
is_error unseq_token = false
is_error continue_needed = false
is_error _ = true
