-- ===== src/RunnerClient/Tests.antt =====
-- The capture of a granted attempt and a reply, and the theorems at it.
use policy_witness.Base.{
  true, false, none, some, [], ◌∷◌, length, All, codes, ok, ◌≤◌, ◌↔◌, ◌≡◌, refl, err, ap,
  ok_injective, Result, Option, Bytes, ℕ, ◌*◌, arith,
}
use policy_witness.RunnerClient.{
  pos, reply_capture_bytes, Control, Attempt, Capture, TransportError,
}
use policy_witness.RunnerClient.Base64.{decode_base64, encode_base64}
use policy_witness.RunnerClient.Base64.Encoded.{IsByte}
use policy_witness.RunnerClient.Base64.RoundTrip.{decode_base64-encode_base64}
use policy_witness.RunnerClient.Validate.{validate_capture}
use policy_witness.RunnerClient.Validate.Admitted.{IsAdmitted, validate_capture-IsAdmitted}
use policy_witness.Json.{Value, number, string, object, end, field, get, as_str, Fields}
use policy_witness.RunnerClient.Run.{
  Output, ClientSystem, parse_runner_client_output, fallback_eligible,
}
use policy_witness.RunnerClient.Run.Accepted.{IsRun, parse_runner_client_output-IsRun}
use policy_witness.RunnerClient.Run.Fallback.{fallback_eligible-invoked}
use policy_witness.RunnerClient.Deadline.{deadline_ticks, IsDeadline, deadline_ticks-IsDeadline}

abbrev grant : Control
grant = record {
  bytes_received = 200;
  sha256 = codes "aaaaaaaaaaaaaaaaaaaaaaaaaaaaaaaaaaaaaaaaaaaaaaaaaaaaaaaaaaaaaaaa";
  status = some (codes "granted");
  host_pid = some (pos 42);
  host_instance = some (codes "22222222-2222-4222-8222-222222222222");
  lease_ms = some 5000;
  reason = none;
}

abbrev granted_attempt : Attempt
granted_attempt = record {
  ordinal = 1;
  attempt_id = codes "11111111-1111-4111-8111-111111111111";
  started_elapsed_ms = some 0;
  ended_elapsed_ms = some 1;
  outcome = codes "granted";
  control = some grant;
  error = none;
}

abbrev replied : Capture
replied = record {
  kind = codes "runner_client_capture";
  protocol_version = 3;
  client_pid = pos 123;
  clock = codes "mach_continuous_time_ns";
  clock_available = true;
  started_continuous_ns = some 1000000000;
  deadline_continuous_ns = some 61000000000;
  ended_continuous_ns = some 1005000000;
  timeout_ms = 60000;
  attempts = granted_attempt ∷ [];
  acquisition_stop = codes "granted";
  submission = record { state = codes "invoked"; invoked_elapsed_ms = some 2 };
  terminal = codes "runner_reply";
  error = none;
  runner_reply = some (record {
    bytes_received = 2;
    bytes_retained = 2;
    truncated = false;
    data_base64 = codes "e30=";
  });
  submission_refusal = none;
}

admits_reply : validate_capture replied ≡ ok (some (codes "{}"))
unfolding validate_capture
admits_reply = refl

decode_base64-encode_base64_example : (decode_base64 (codes "e30=") ≡ ok (codes "{}")) ↔ (
    All IsByte (codes "{}")
    × ((length (codes "{}") ≤ reply_capture_bytes) × (encode_base64 (codes "{}") ≡ codes "e30=")))
decode_base64-encode_base64_example = decode_base64-encode_base64 (codes "e30=") (codes "{}")

validate_capture-IsAdmitted_example : IsAdmitted replied (some (codes "{}"))
validate_capture-IsAdmitted_example =
    validate_capture-IsAdmitted replied (some (codes "{}")) admits_reply

abbrev xpc_failure : TransportError
xpc_failure = record {
  stage = codes "submission";
  reason = codes "xpc_error";
  domain = none;
  code = none;
  message = codes "gone";
  domain_truncated = false;
  message_truncated = false;
}

abbrev ended_by : Option Bytes → Result Capture
ended_by none = err (codes "missing field terminal")
ended_by (some terminal) =
    ok (record replied { terminal = terminal; runner_reply = none; error = some xpc_failure })

abbrev frame : Value
frame = object (
    field (codes "protocol_version") (number (codes "3"))
      (field (codes "terminal") (string (codes "xpc_error")) end))

abbrev client : ClientSystem
client = record {
  from_slice = λ t. ok frame;
  from_capture = λ v. ended_by (as_str (get (codes "terminal") v));
  from_utf8_lossy = λ t. t;
  is_integer = λ n. true;
  as_u64 = λ n. some 3;
}

abbrev printed : Output
printed = record { code = some (pos 1); stdout = codes "frame"; stderr = [] }

client_terminal :
    (fields : Fields) (capture : Capture)
    → client.from_capture (object fields) ≡ ok capture
    → as_str (get (codes "terminal") (object fields)) ≡ some capture.terminal
client_terminal fields capture h = go (as_str (get (codes "terminal") (object fields))) h
  where
    go : (o : Option Bytes) → ended_by o ≡ ok capture → o ≡ some capture.terminal
    go none h = cc
    go (some t) h = ap (λ (c : Capture). some c.terminal) (ok_injective h)

is_eligible : fallback_eligible (parse_runner_client_output client [] 0 1 printed none).0 ≡ true
unfolding parse_runner_client_output fallback_eligible
is_eligible = refl

parse_runner_client_output-IsRun_example :
    (let done = parse_runner_client_output client [] 0 1 printed none in
      IsRun client none printed done.0 done.1)
parse_runner_client_output-IsRun_example =
    parse_runner_client_output-IsRun client [] 0 1 printed none

fallback_eligible-invoked_example :
    (let done = parse_runner_client_output client [] 0 1 printed none in
      (done.1 ≡ none) × (done.0.submission ≡ codes "invoked"))
fallback_eligible-invoked_example =
    fallback_eligible-invoked client client_terminal [] 0 1 printed none is_eligible

deadline_ticks-IsDeadline_example :
    (deadline : ℕ) × ((deadline_ticks 500 60000 125 3 ≡ ok deadline)
      × IsDeadline 500 (60000 * 1000000 * 3) 125 deadline)
deadline_ticks-IsDeadline_example =
    deadline_ticks-IsDeadline 500 60000 125 3 (λ e. omega (arith, e)) (λ e. omega (arith, e))
