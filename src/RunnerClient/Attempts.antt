-- ===== src/RunnerClient/Attempts.antt =====
-- The acquisition attempts of a capture: the loop of `validate_capture` over them, in
-- controller/src/runner_client.rs. A `match` on a text is a chain of tests.
pub mod Chain
use policy_witness.Base.{
  ℕ, ◌+◌, ◌-◌, ◌/◌, Bool, true, false, not, ◌&&◌, ◌||◌, Option, none, some, List, [], ◌∷◌, ◌==◌,
  if◌then◌else◌, ltb, leb, length, any, map, is_empty, is_some, is_some_and, is_none_or, Bytes,
  codes, bytes_eq, Result, ok, err, ◌>>=◌,
}
use policy_witness.RunnerManager.Kinds.{runner_protocol_version}
use policy_witness.RunnerClient.{
  ℤ, is_positive, reply_capture_bytes, attempt_limit, i64_max, Submission, Control, TransportError,
  ReplyCapture, Attempt, Capture, require, one_of, uuid, validate_error, validate_control,
  same_bool,
}
use policy_witness.RunnerClient.Base64.{decode_base64}

unfoldable pub ascii_lower : ℕ → ℕ
ascii_lower b = if leb b'A' b && leb b b'Z' then b + 32 else b

abbrev pub to_ascii_lowercase : Bytes → Bytes
to_ascii_lowercase text = map ascii_lower text

-- What the loop over the attempts keeps: the end before, and the identifiers so far.
pub record Seen : Type 0 where
  pub previous_end : ℕ
  pub ids : List Bytes

abbrev pub lower_id : Attempt → Bytes
lower_id attempt = to_ascii_lowercase attempt.attempt_id

unfoldable pub check_start : ℕ → Option ℕ → Result (Unit {0})
check_start previous_end none = ok tt
check_start previous_end (some start) =
    require (leb previous_end start) (codes "backwards acquisition chronology")

-- The end of an attempt, which is the next one's `previous_end`.
unfoldable pub check_end : Option ℕ → ℕ → Option ℕ → Option ℕ → Result ℕ
check_end elapsed previous_end started none = ok previous_end
check_end elapsed previous_end started (some end) = do
  ordered ←
      require
        (is_none_or (λ (start : ℕ). leb start end) started
          && is_none_or (λ (total : ℕ). leb end total) elapsed)
        (codes "invalid acquisition attempt end")
  ok end

abbrev pub check_control : Option Control → Result (Unit {0})
check_control none = ok tt
check_control (some control) = validate_control control

abbrev pub check_error : Option TransportError → Result (Unit {0})
check_error none = ok tt
check_error (some error) = validate_error error

-- `match attempt.outcome` for the reason of its error.
unfoldable pub reason_matches : Bytes → Bytes → Bool
unfolding bytes_eq one_of
reason_matches outcome reason =
    if bytes_eq outcome (codes "transport_error")
    then one_of (codes "xpc_error" ∷ codes "interrupted" ∷ codes "invalidated" ∷ []) reason
    else if bytes_eq outcome (codes "timeout")
    then one_of (codes "rpc_timeout" ∷ codes "overall_deadline" ∷ []) reason
    else if bytes_eq outcome (codes "protocol_error")
    then one_of
        (codes "invalid_control" ∷ codes "unsupported_protocol" ∷ codes "control_too_large" ∷ [])
        reason
    else if bytes_eq outcome (codes "local_error")
    then one_of (codes "proxy_type_mismatch" ∷ codes "clock_error" ∷ codes "encoding_failed" ∷ [])
        reason
    else false

unfoldable pub check_attempt_error : Bytes → Option TransportError → Result (Unit {0})
unfolding bytes_eq one_of validate_error reason_matches
check_attempt_error outcome none = ok tt
check_attempt_error outcome (some error) = do
  valid ← validate_error error
  stage ←
      require
        (bytes_eq error.stage (codes "acquisition")
          || (bytes_eq error.stage (codes "local")
              && one_of (codes "clock_error" ∷ codes "encoding_failed" ∷ []) error.reason))
        (codes "attempt carries an unrelated error stage")
  require (reason_matches outcome error.reason)
      (codes "attempt outcome disagrees with its error reason")

-- `attempt.control.as_ref().and_then(|c| c.status.as_deref())`.
abbrev pub status_of : Option Control → Option Bytes
status_of none = none
status_of (some control) = control.status

abbrev pub is_status : Bytes → Option Bytes → Bool
is_status text status = is_some_and (λ s. bytes_eq s text) status

unfoldable pub check_outcome : Bool → Attempt → Result (Unit {0})
unfolding bytes_eq one_of
check_outcome is_last attempt =
    if bytes_eq attempt.outcome (codes "granted")
    then require
        (is_status (codes "granted") (status_of attempt.control)
          && (not (is_some attempt.error) && is_last))
        (codes "invalid granted attempt")
    else if bytes_eq attempt.outcome (codes "occupied")
    then require
        (is_status (codes "occupied") (status_of attempt.control) && not (is_some attempt.error))
        (codes "invalid occupied attempt")
    else if one_of (codes "transport_error" ∷ codes "timeout" ∷ codes "local_error" ∷ [])
        attempt.outcome
    then require (not (is_some attempt.control) && is_some attempt.error)
        (codes "failed attempt lacks its error or invents control")
    else if bytes_eq attempt.outcome (codes "protocol_error")
    then require (is_some attempt.error && not (is_some (status_of attempt.control)))
        (codes "invalid protocol-error attempt")
    else err (codes "unknown acquisition attempt outcome")

unfoldable pub check_terminal_attempt : Bool → Bytes → Result (Unit {0})
unfolding one_of
check_terminal_attempt is_last outcome =
    if one_of (codes "protocol_error" ∷ codes "local_error" ∷ []) outcome
    then require is_last (codes "acquisition continued after terminal attempt failure")
    else ok tt

module _ (clock_available : Bool) (elapsed : Option ℕ) where
  -- The body of the loop.
  unfoldable pub check_attempt : ℕ → Bool → Attempt → Seen → Result Seen
  unfolding any bytes_eq uuid check_start check_end validate_control check_attempt_error
      check_outcome check_terminal_attempt ascii_lower
  check_attempt index is_last attempt seen = do
    identity ←
        require
          (attempt.ordinal == index + 1
            && (uuid attempt.attempt_id && not (any (λ i. bytes_eq i (lower_id attempt)) seen.ids)))
          (codes "invalid acquisition attempt identity")
    readings ←
        require
          (not clock_available
            || (is_some attempt.started_elapsed_ms && is_some attempt.ended_elapsed_ms))
          (codes "available attempt clock lacks readings")
    started ← check_start seen.previous_end attempt.started_elapsed_ms
    ended ← check_end elapsed seen.previous_end attempt.started_elapsed_ms attempt.ended_elapsed_ms
    control ← check_control attempt.control
    error ← check_attempt_error attempt.outcome attempt.error
    outcome ← check_outcome is_last attempt
    terminal ← check_terminal_attempt is_last attempt.outcome
    ok (record { previous_end = ended; ids = lower_id attempt ∷ seen.ids })

  unfoldable pub check_attempts : ℕ → List Attempt → Seen → Result Seen
  unfolding check_attempt
  check_attempts index [] seen = ok seen
  check_attempts index (attempt ∷ rest) seen =
      check_attempt index (is_empty rest) attempt seen >>= check_attempts (index + 1) rest
