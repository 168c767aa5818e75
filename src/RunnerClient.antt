-- ===== src/RunnerClient.antt =====
-- controller/src/runner_client.rs: the capture that the client process prints, and its admission.
-- Here are its types and the checks of an identifier, an error and a control message. An integer
-- that may be negative is a `ℤ` over the native numbers.
pub mod Base64
pub mod Attempts
pub mod Validate
pub mod Run
pub mod Deadline
mod Tests
use policy_witness.Base.{
  ℕ, ◌+◌, ◌-◌, ◌*◌, ◌^◌, Bool, true, false, not, ◌&&◌, ◌||◌, Option, none, some, List, [], ◌∷◌,
  ◌==◌, if◌then◌else◌, ltb, leb, length, any, all, is_empty, is_some, is_some_and, is_none_or,
  Bytes, codes, bytes_eq, Result, ok, err, ◌>>=◌, ◌≡◌, refl,
}

pub data ℤ : Type 0 where
  pos negsuc : ℕ → ℤ

abbrev pub is_positive : ℤ → Bool
is_positive (pos n) = ltb 0 n
is_positive (negsuc n) = false

abbrev pub reply_capture_bytes : ℕ
reply_capture_bytes = 92 * 1024 * 1024

abbrev pub control_bytes : ℕ
control_bytes = 64 * 1024

abbrev pub attempt_limit : ℕ
attempt_limit = 256

abbrev pub i64_max : ℕ
i64_max = 2 ^ 63 - 1

pub record Submission : Type 0 where
  pub state : Bytes
  pub invoked_elapsed_ms : Option ℕ

pub record Control : Type 0 where
  pub bytes_received : ℕ
  pub sha256 : Bytes
  pub status : Option Bytes
  pub host_pid : Option ℤ
  pub host_instance : Option Bytes
  pub lease_ms : Option ℕ
  pub reason : Option Bytes

pub record TransportError : Type 0 where
  pub stage : Bytes
  pub reason : Bytes
  pub domain : Option Bytes
  pub code : Option ℤ
  pub message : Bytes
  pub domain_truncated : Bool
  pub message_truncated : Bool

pub record ReplyCapture : Type 0 where
  pub bytes_received : ℕ
  pub bytes_retained : ℕ
  pub truncated : Bool
  pub data_base64 : Bytes

pub record Attempt : Type 0 where
  pub ordinal : ℕ
  pub attempt_id : Bytes
  pub started_elapsed_ms : Option ℕ
  pub ended_elapsed_ms : Option ℕ
  pub outcome : Bytes
  pub control : Option Control
  pub error : Option TransportError

pub record Capture : Type 0 where
  pub kind : Bytes
  pub protocol_version : ℕ
  pub client_pid : ℤ
  pub clock : Bytes
  pub clock_available : Bool
  pub started_continuous_ns : Option ℕ
  pub deadline_continuous_ns : Option ℕ
  pub ended_continuous_ns : Option ℕ
  pub timeout_ms : ℕ
  pub attempts : List Attempt
  pub acquisition_stop : Bytes
  pub submission : Submission
  pub terminal : Bytes
  pub error : Option TransportError
  pub runner_reply : Option ReplyCapture
  pub submission_refusal : Option Control

abbrev pub require : Bool → Bytes → Result (Unit {0})
require true diagnostic = ok tt
require false diagnostic = err diagnostic

pub required {ℓ} :
    {A : Type ℓ} {value : A} (t : Bool) (diagnostic : Bytes) (next : Result A)
    → (require t diagnostic >>= λ u. next) ≡ ok value
    → (t ≡ true) × (next ≡ ok value)
required true diagnostic next h = (refl, h)
required false diagnostic next h = cc

pub required_last : (t : Bool) (diagnostic : Bytes) → require t diagnostic ≡ ok tt → t ≡ true
required_last true diagnostic h = refl
required_last false diagnostic h = cc

-- `[...].contains(&text)`.
unfoldable pub one_of : List Bytes → Bytes → Bool
unfolding any bytes_eq
one_of texts text = any (λ t. bytes_eq t text) texts

unfoldable pub is_ascii_hexdigit : ℕ → Bool
is_ascii_hexdigit b =
    (leb b'0' b && leb b b'9') || ((leb b'a' b && leb b b'f') || (leb b'A' b && leb b b'F'))

-- The test of a byte of a UUID at an index.
unfoldable pub is_uuid_byte : ℕ → ℕ → Bool
unfolding is_ascii_hexdigit
is_uuid_byte index byte =
    if index == 8 || (index == 13 || (index == 18 || index == 23))
    then byte == b'-'
    else is_ascii_hexdigit byte

unfoldable pub are_uuid_bytes : ℕ → Bytes → Bool
unfolding is_uuid_byte
are_uuid_bytes index [] = true
are_uuid_bytes index (byte ∷ rest) = is_uuid_byte index byte && are_uuid_bytes (index + 1) rest

unfoldable pub uuid : Bytes → Bool
unfolding are_uuid_bytes
uuid value = length value == 36 && are_uuid_bytes 0 value

abbrev pub error_reasons : List Bytes
error_reasons =
    codes "xpc_error"
    ∷ codes "interrupted"
    ∷ codes "invalidated"
    ∷ codes "rpc_timeout"
    ∷ codes "overall_deadline"
    ∷ codes "attempt_limit"
    ∷ codes "invalid_control"
    ∷ codes "unsupported_protocol"
    ∷ codes "control_too_large"
    ∷ codes "proxy_type_mismatch"
    ∷ codes "clock_error"
    ∷ codes "encoding_failed"
    ∷ codes "input_read_failed"
    ∷ []

abbrev pub same_bool : Bool → Bool → Bool
same_bool true b = b
same_bool false b = not b

unfoldable pub validate_error : TransportError → Result (Unit {0})
unfolding one_of
validate_error value = do
  stage ←
      require (one_of (codes "acquisition" ∷ codes "submission" ∷ codes "local" ∷ []) value.stage)
        (codes "unknown transport error stage")
  reason ← require (one_of error_reasons value.reason) (codes "unknown transport error reason")
  lengths ←
      require
        (leb (length value.message) 1024
          && is_none_or (λ (s : Bytes). leb (length s) 128) value.domain)
        (codes "transport error exceeds retained string limit")
  native ←
      require (same_bool (is_some value.domain) (is_some value.code))
        (codes "native domain/code must be observed together")
  cut_domain ←
      require (not value.domain_truncated || is_some value.domain)
        (codes "domain truncation without a domain")
  message ←
      require (not value.message_truncated || leb 1021 (length value.message))
        (codes "impossible message truncation")
  require
      (not value.domain_truncated || is_some_and (λ (s : Bytes). leb 125 (length s)) value.domain)
      (codes "impossible domain truncation")

abbrev pub refusal_reasons : List Bytes
refusal_reasons =
    codes "wrong" ∷ codes "expired" ∷ codes "absent" ∷ codes "consumed" ∷ codes "clock_error" ∷ []

-- `match status`.
unfoldable pub validate_status : Control → Bytes → Result (Unit {0})
unfolding bytes_eq one_of
validate_status value status =
    if bytes_eq status (codes "granted")
    then require
        (is_some_and (λ n. leb 1 n && leb n 5000) value.lease_ms && not (is_some value.reason))
        (codes "invalid granted lease")
    else if bytes_eq status (codes "occupied")
    then require (not (is_some value.lease_ms) && not (is_some value.reason))
        (codes "occupied control carries a grant or reason")
    else if bytes_eq status (codes "reservation_refused")
    then require
        (not (is_some value.lease_ms) && is_some_and (λ s. one_of refusal_reasons s) value.reason)
        (codes "invalid submission refusal")
    else err (codes "unknown admitted control status")

unfoldable pub validate_claims : Control → Option Bytes → Result (Unit {0})
unfolding uuid validate_status
validate_claims value none =
    require
      (not (is_some value.host_pid)
        && (not (is_some value.host_instance)
            && (not (is_some value.lease_ms) && not (is_some value.reason))))
      (codes "unadmitted control contains recovered claims")
validate_claims value (some status) = do
  bounded ←
      require (ltb 0 value.bytes_received && leb value.bytes_received control_bytes)
        (codes "admitted control exceeds its byte boundary")
  identity ←
      require (is_some_and is_positive value.host_pid && is_some_and uuid value.host_instance)
        (codes "admitted control lacks host-reported identity")
  validate_status value status

unfoldable pub is_lower_hexdigit : ℕ → Bool
is_lower_hexdigit b = (leb b'0' b && leb b b'9') || (leb b'a' b && leb b b'f')

unfoldable pub validate_control : Control → Result (Unit {0})
unfolding validate_claims all is_lower_hexdigit
validate_control value = do
  bounded ← require (leb value.bytes_received i64_max) (codes "invalid control byte count")
  hash ←
      require (length value.sha256 == 64 && all is_lower_hexdigit value.sha256)
        (codes "invalid control byte hash")
  validate_claims value value.status
