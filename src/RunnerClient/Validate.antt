-- ===== src/RunnerClient/Validate.antt =====
-- `validate_capture` of controller/src/runner_client.rs, in the steps of its body. A `match` on a
-- text is a chain of tests.
pub mod Admitted
use policy_witness.Base.{
  ℕ, ◌+◌, ◌-◌, ◌/◌, Bool, true, false, not, ◌&&◌, ◌||◌, Option, none, some, List, [], ◌∷◌, ◌==◌,
  if◌then◌else◌, ltb, leb, length, any, map, is_empty, is_some, is_some_and, is_none_or, Bytes,
  codes, bytes_eq, Result, ok, err, ◌>>=◌,
}
use policy_witness.RunnerManager.Kinds.{runner_protocol_version}
use policy_witness.RunnerClient.{
  ℤ, is_positive, reply_capture_bytes, attempt_limit, i64_max, Submission, Control, TransportError,
  ReplyCapture, Attempt, Capture, require, one_of, uuid, validate_error, validate_control,
  same_bool,
}
use policy_witness.RunnerClient.Base64.{decode_base64}
use policy_witness.RunnerClient.Attempts.{Seen, check_error, check_attempts, is_status}

unfoldable pub check_identity : Capture → Result (Unit {0})
unfolding bytes_eq
check_identity value = do
  identity ←
      require
        (bytes_eq value.kind (codes "runner_client_capture")
          && value.protocol_version == runner_protocol_version)
        (codes "invalid client capture identity")
  require
      (is_positive value.client_pid
        && (bytes_eq value.clock (codes "mach_continuous_time_ns") && ltb 0 value.timeout_ms))
      (codes "invalid client clock or identity")

unfoldable pub check_initial : Capture → Bool → Result (Unit {0})
unfolding bytes_eq
check_initial value false = ok tt
check_initial value true =
    require (is_empty value.attempts && bytes_eq value.submission.state (codes "not_invoked"))
      (codes "initial clock failure invents acquisition or execution")

-- `if value.clock_available`, by what it is.
unfoldable pub check_clock : Capture → Bool → Result (Unit {0})
unfolding bytes_eq check_initial
check_clock value true =
    require
      (is_some value.started_continuous_ns
        && (is_some value.deadline_continuous_ns && is_some value.ended_continuous_ns))
      (codes "available clock lacks readings")
check_clock value false = do
  terminal ←
      require
        (bytes_eq value.terminal (codes "local_error")
          && is_some_and (λ (e : TransportError). bytes_eq e.reason (codes "clock_error"))
              value.error)
        (codes "unavailable clock lacks its terminal failure")
  ended ←
      require (not (is_some value.ended_continuous_ns))
        (codes "failed clock invents a terminal reading")
  check_initial value
      (not (is_some value.started_continuous_ns) || not (is_some value.deadline_continuous_ns))

-- `match (started, ended)`.
unfoldable pub elapsed_of : Option ℕ → Option ℕ → Result (Option ℕ)
elapsed_of (some start) (some end) = do
  forward ← require (leb start end) (codes "backwards continuous clock")
  ok (some ((end - start) / 1000000))
elapsed_of _ _ = ok none

abbrev pub deadline_elapsed : Capture → Bool
deadline_elapsed value =
    is_some_and
      (λ (end : ℕ). is_some_and (λ deadline. leb deadline end) value.deadline_continuous_ns)
      value.ended_continuous_ns

abbrev pub last_outcome : List Attempt → Option Bytes
last_outcome [] = none
last_outcome (attempt ∷ []) = some attempt.outcome
last_outcome (attempt ∷ next ∷ rest) = last_outcome (next ∷ rest)

-- `value.attempts.last().is_some_and(|a| a.outcome == ...)`.
abbrev pub last_is : Bytes → Capture → Bool
last_is outcome value = is_some_and (λ o. bytes_eq o outcome) (last_outcome value.attempts)

abbrev pub terminal_is : Bytes → Capture → Bool
terminal_is text value = bytes_eq value.terminal text

-- `match value.acquisition_stop`.
unfoldable pub check_stop : Capture → Bool → Result (Unit {0})
unfolding bytes_eq
check_stop value granted =
    if bytes_eq value.acquisition_stop (codes "granted")
    then require granted (codes "acquisition grant has no admitted granting attempt")
    else if bytes_eq value.acquisition_stop (codes "overall_deadline")
    then require
        (not granted && (terminal_is (codes "xpc_timeout") value && deadline_elapsed value))
        (codes "invalid acquisition deadline")
    else if bytes_eq value.acquisition_stop (codes "attempt_limit")
    then require
        (not granted
          && (length value.attempts == attempt_limit
              && terminal_is (codes "acquisition_failed") value))
        (codes "invalid acquisition attempt limit")
    else if bytes_eq value.acquisition_stop (codes "protocol_error")
    then require
        (not granted
          && (terminal_is (codes "protocol_error") value && last_is (codes "protocol_error") value))
        (codes "invalid acquisition protocol failure")
    else if bytes_eq value.acquisition_stop (codes "local_error")
    then require
        (not granted
          && (terminal_is (codes "local_error") value
              && (not value.clock_available
                  || is_none_or (λ o. bytes_eq o (codes "local_error"))
                      (last_outcome value.attempts))))
        (codes "invalid local acquisition failure")
    else err (codes "unknown acquisition stop reason")

unfoldable pub check_uninvoked : Submission → Result Bool
check_uninvoked submission = do
  untimed ←
      require (not (is_some submission.invoked_elapsed_ms))
        (codes "uninvoked submission carries invocation time")
  ok false

unfoldable pub check_invoked : Capture → Bool → Option ℕ → ℕ → Result Bool
unfolding bytes_eq
check_invoked value granted elapsed previous_end = do
  reserved ←
      require (granted && bytes_eq value.acquisition_stop (codes "granted"))
        (codes "submission lacks its reservation grant")
  reading ←
      require (not value.clock_available || is_some value.submission.invoked_elapsed_ms)
        (codes "available invocation clock lacks its reading")
  timed ←
      require
        (is_none_or
          (λ (n : ℕ). leb previous_end n && is_none_or (λ (total : ℕ). leb n total) elapsed)
          value.submission.invoked_elapsed_ms)
        (codes "invalid execution invocation time")
  ok true

-- `match value.submission.state`: whether the execution was invoked.
unfoldable pub check_submission : Capture → Bool → Option ℕ → ℕ → Result Bool
unfolding bytes_eq check_uninvoked check_invoked
check_submission value granted elapsed previous_end =
    if bytes_eq value.submission.state (codes "not_invoked")
    then check_uninvoked value.submission
    else if bytes_eq value.submission.state (codes "invoked")
    then check_invoked value granted elapsed previous_end
    else err (codes "unknown client submission state")

unfoldable pub check_refusal : Capture → Bool → Option Control → Result (Unit {0})
unfolding bytes_eq one_of validate_control
check_refusal value invoked none = ok tt
check_refusal value invoked (some control) = do
  terminal ←
      require
        (invoked
          && one_of (codes "submission_refused" ∷ codes "protocol_error" ∷ []) value.terminal)
        (codes "terminal disagrees with submission control")
  valid ← validate_control control
  require (not (terminal_is (codes "protocol_error") value) || not (is_some control.status))
      (codes "invalid submission control recovers claims")

-- The refusal of a refused submission; that it is there was tested before (`unwrap`).
unfoldable pub check_refused : Option Control → Result (Unit {0})
unfolding bytes_eq validate_control
check_refused none = err []
check_refused (some refusal) = do
  valid ← validate_control refusal
  require (is_status (codes "reservation_refused") refusal.status)
      (codes "wrong submission control status")

abbrev pub error_is : (TransportError → Bool) → Capture → Bool
error_is test value = is_some_and test value.error

abbrev pub stage_of : Bool → Bytes
stage_of true = codes "submission"
stage_of false = codes "acquisition"

-- `match value.terminal`.
unfoldable pub check_terminal : Capture → Bool → Result (Unit {0})
unfolding bytes_eq one_of check_refused
check_terminal value invoked =
    if terminal_is (codes "runner_reply") value
    then require (invoked && not (is_some value.error)) (codes "invalid received runner reply")
    else if terminal_is (codes "submission_refused") value
    then (require (invoked && not (is_some value.error)) (codes "invalid refused execution")
        >>= λ u. check_refused value.submission_refusal)
    else if terminal_is (codes "xpc_error") value
    then require
        (invoked
          && error_is
              (λ (e : TransportError).
                bytes_eq e.stage (codes "submission")
                && one_of
                    (codes "xpc_error"
                      ∷ codes "interrupted"
                      ∷ codes "invalidated"
                      ∷ codes "proxy_type_mismatch"
                      ∷ [])
                    e.reason)
              value)
        (codes "invalid post-submission XPC error")
    else if terminal_is (codes "xpc_timeout") value
    then require
        (error_is
            (λ (e : TransportError).
              bytes_eq e.reason (codes "overall_deadline") && bytes_eq e.stage (stage_of invoked))
            value
          && deadline_elapsed value)
        (codes "timeout lacks elapsed overall deadline")
    else if terminal_is (codes "acquisition_failed") value
    then require
        (not invoked
          && (bytes_eq value.acquisition_stop (codes "attempt_limit")
              && error_is
                  (λ (e : TransportError).
                    bytes_eq e.stage (codes "acquisition")
                    && bytes_eq e.reason (codes "attempt_limit"))
                  value))
        (codes "invalid acquisition failure")
    else if terminal_is (codes "protocol_error") value
    then require
        (error_is
          (λ (e : TransportError).
            bytes_eq e.stage (stage_of invoked)
            && one_of
                (codes "invalid_control"
                  ∷ codes "unsupported_protocol"
                  ∷ codes "control_too_large"
                  ∷ [])
                e.reason)
          value)
        (codes "invalid terminal protocol error")
    else if terminal_is (codes "local_error") value
    then require
        (error_is
            (λ (e : TransportError).
              (bytes_eq e.stage (codes "local")
                && one_of
                    (codes "clock_error" ∷ codes "encoding_failed" ∷ codes "input_read_failed" ∷ [])
                    e.reason)
              || (bytes_eq e.stage (codes "acquisition")
                  && bytes_eq e.reason (codes "proxy_type_mismatch")))
            value
          && (not invoked || not value.clock_available))
        (codes "invalid terminal local error")
    else err (codes "unknown client terminal event")

abbrev pub min_of : ℕ → ℕ → ℕ
min_of m n = if leb m n then m else n

unfoldable pub check_reply : Option ReplyCapture → Result (Option Bytes)
unfolding decode_base64
check_reply none = ok none
check_reply (some reply) = do
  retained ←
      require
        (leb reply.bytes_received i64_max
          && (reply.bytes_retained == min_of reply.bytes_received reply_capture_bytes
              && same_bool reply.truncated (ltb reply.bytes_retained reply.bytes_received)))
        (codes "inconsistent reply byte retention")
  decoded ← decode_base64 reply.data_base64
  whole ←
      require (length decoded == reply.bytes_retained)
        (codes "reply base64 length disagrees with retained count")
  ok (some decoded)

-- The checks after the submission's state.
unfoldable pub check_end_state : Capture → Bool → Bool → Result (Option Bytes)
unfolding bytes_eq check_refusal check_terminal check_reply
check_end_state value granted invoked = do
  host ←
      require
        (invoked || (not (is_some value.runner_reply) && not (is_some value.submission_refusal)))
        (codes "uninvoked execution carries a host reply")
  reply ←
      require (same_bool (is_some value.runner_reply) (terminal_is (codes "runner_reply") value))
        (codes "terminal disagrees with host reply capture")
  refused ←
      require
        (not (terminal_is (codes "submission_refused") value) || is_some value.submission_refusal)
        (codes "terminal lacks its control refusal")
  refusal ← check_refusal value invoked value.submission_refusal
  terminal ← check_terminal value invoked
  lost ←
      require
        (not (granted && not invoked)
          || (terminal_is (codes "xpc_timeout") value || terminal_is (codes "local_error") value))
        (codes "grant lost without an explicit pre-invocation stop")
  check_reply value.runner_reply

unfoldable pub validate_capture : Capture → Result (Option Bytes)
unfolding bytes_eq check_identity check_clock elapsed_of check_attempts validate_error check_stop
    check_submission check_end_state
validate_capture value = do
  identity ← check_identity value
  clock ← check_clock value value.clock_available
  elapsed ← elapsed_of value.started_continuous_ns value.ended_continuous_ns
  limit ←
      require (leb (length value.attempts) attempt_limit) (codes "too many acquisition attempts")
  seen ←
      check_attempts value.clock_available elapsed 0 value.attempts
        (record { previous_end = 0; ids = [] })
  error ← check_error value.error
  stop ← check_stop value (last_is (codes "granted") value)
  invoked ← check_submission value (last_is (codes "granted") value) elapsed seen.previous_end
  check_end_state value (last_is (codes "granted") value) invoked
