-- ===== src/RunnerClient/Run.antt =====
-- `capture_json_output` of controller/src/utils.rs, and what controller/src/runner_client.rs makes
-- of it: `parse_runner_client_output` and `fallback_eligible`. The client's process has
-- ended: its output is an argument. serde_json and the lossy decoding are a parameter.
pub mod Found
pub mod Accepted
pub mod Fallback
use policy_witness.Base.{
  ℕ, zero, suc, ◌*◌, Bool, true, false, not, ◌&&◌, Option, none, some, List, [], ◌∷◌, ◌++◌, ◌==◌,
  if◌then◌else◌, leb, length, is_empty, is_some_and, is_none_or, or_else, unwrap_or, Bytes, codes,
  bytes_eq, ResultOf, Result, ok, err, map_err, ok_or, ◌>>=◌, decimal,
}
use policy_witness.Json.{Value, null, boolean, number, string, array, object, get, get_in, as_str}
use policy_witness.RunnerManager.Kinds.{runner_protocol_version}
use policy_witness.RunnerClient.{ℤ, pos, ReplyCapture, Capture}
use policy_witness.RunnerClient.Validate.{validate_capture, min_of}

abbrev pub runner_capture_bytes : ℕ
runner_capture_bytes = 272 * 1024 * 1024

pub record RequestDelivery : Type 0 where
  pub bytes_written : ℕ
  pub error : Option Bytes

-- `std::process::Output`.
pub record Output : Type 0 where
  pub code : Option ℤ
  pub stdout : Bytes
  pub stderr : Bytes

-- `from_capture` is serde's derived reader, and the two of numbers are of `serde_json::Number`,
-- whose text a `Value` keeps.
pub record ClientSystem : Type 0 where
  pub from_slice : Bytes → Result Value
  pub from_capture : Value → Result Capture
  pub from_utf8_lossy : Bytes → Bytes
  pub is_integer : Bytes → Bool
  pub as_u64 : Bytes → Option ℕ

pub record JsonOutputCapture : Type 0 where
  pub stdout_parse_error : Option Bytes
  pub stdout_truncated : Bool
  pub stdout_capture_error : Option Bytes
  pub stdout_bytes_received : Option ℕ
  pub stdout_bytes_retained : Option ℕ
  pub stderr_bytes_received : Option ℕ
  pub stderr_bytes_retained : Option ℕ
  pub capture_limit_bytes : ℕ
  pub stdout_raw : Option Bytes
  pub stderr : Bytes
  pub stderr_truncated : Bool

pub record RunnerClientRun : Type 0 where
  pub argv : List Bytes
  pub started_at_unix_ms : ℕ
  pub ended_at_unix_ms : ℕ
  pub exit_code : ℤ
  pub request_delivery : Option RequestDelivery
  pub output : JsonOutputCapture
  pub transport : Option Value
  pub transport_admission : Bytes
  pub transport_error : Option Bytes
  pub submission : Bytes
  pub runner_reply_error : Option Bytes

unfoldable pub take_bytes : ℕ → Bytes → Bytes
take_bytes zero bytes = []
take_bytes (suc n) [] = []
take_bytes (suc n) (b ∷ bytes) = b ∷ take_bytes n bytes

abbrev pub then_some : Bool → Bytes → Option Bytes
then_some true text = some text
then_some false text = none

abbrev pub ok_of {ℓ} : {A : Type ℓ} → Result A → Option A
ok_of (ok a) = some a
ok_of (err e) = none

abbrev pub err_of {ℓ} : {A : Type ℓ} → Result A → Option Bytes
err_of (ok a) = none
err_of (err e) = some e

-- What the admission finds in a capture.
pub record Admission : Type 0 where
  pub submission : Bytes
  pub runner_reply_error : Option Bytes
  pub reply : Option Value

-- A step of the admission, which may end with a status and an error.
abbrev pub Step : Type 0 → Type 0
Step A = ResultOf (Bytes × Bytes) A

abbrev pub delivery_error : Option RequestDelivery → Option Bytes
delivery_error none = none
delivery_error (some delivery) = delivery.error

abbrev pub refuse_some : Bytes → Option Bytes → Step (Unit {0})
refuse_some status none = ok tt
refuse_some status (some error) = err (status, error)

-- `first.as_ref().or(second.as_ref())`.
abbrev pub or_option : Option Bytes → Option Bytes → Option Bytes
or_option none second = second
or_option (some e) second = some e

module _ (sys : ClientSystem) where
  unfoldable pub truncate_output : Bytes → ℕ → Bytes × Bool
  unfolding take_bytes
  truncate_output bytes limit =
      if leb (length bytes) limit
      then (sys.from_utf8_lossy bytes, false)
      else (sys.from_utf8_lossy (take_bytes limit bytes), true)

  -- `serde_json::from_slice`, where there is a whole output.
  abbrev pub parse_stdout : Bool → Bytes → Option (Result Value)
  parse_stdout truncated stdout =
      let read = sys.from_slice stdout in
      if not truncated && not (is_empty stdout) then some read else none

  abbrev pub parsed_of : Option (Result Value) → Option Value
  parsed_of none = none
  parsed_of (some read) = ok_of read

  abbrev pub parse_error_of : Option (Result Value) → Option Bytes
  parse_error_of none = none
  parse_error_of (some read) = err_of read

  unfoldable pub capture_json_output : Output → Bytes → ℕ → JsonOutputCapture × Option Value
  unfolding truncate_output decimal
  capture_json_output out producer limit =
      let stdout = truncate_output out.stdout limit in
      let stderr = truncate_output out.stderr limit in
      let read = parse_stdout stdout.1 out.stdout in
      let problem = parse_error_of read in
      let raw = if stdout.1 then true else elim problem [ none ↦ false | some e ↦ true ] in
      (
        record {
          stdout_parse_error = problem;
          stdout_truncated = stdout.1;
          stdout_capture_error = then_some stdout.1 (
              codes "controller truncated "
              ++ (producer
                  ++ (codes " stdout: received "
                      ++ (decimal (length out.stdout)
                          ++ (codes " bytes, retained "
                              ++ (decimal (min_of (length out.stdout) limit)
                                  ++ (codes " bytes (cap " ++ (decimal limit ++ codes ")"))))))));
          stdout_bytes_received = some (length out.stdout);
          stdout_bytes_retained = some (min_of (length out.stdout) limit);
          stderr_bytes_received = some (length out.stderr);
          stderr_bytes_retained = some (min_of (length out.stderr) limit);
          capture_limit_bytes = limit;
          stdout_raw = then_some raw stdout.0;
          stderr = stderr.0;
          stderr_truncated = stderr.1;
        },
        parsed_of read,
      )

  unfoldable pub protocol_of : Option Value → Step Bytes
  protocol_of (some (number n)) =
      if sys.is_integer n
      then ok n
      else err (codes "malformed", codes "client capture lacks an integer protocol_version")
  protocol_of _ = err (codes "malformed", codes "client capture lacks an integer protocol_version")

  abbrev pub current_or_refuse : Bytes → Bool → Step (Unit {0})
  current_or_refuse protocol true = ok tt
  current_or_refuse protocol false = err (
    codes "unsupported",
    codes "client capture protocol " ++ (protocol ++ codes " is unsupported"),
  )

  unfoldable pub check_protocol : Bytes → Step (Unit {0})
  check_protocol protocol =
      current_or_refuse protocol
        (is_some_and (λ n. n == runner_protocol_version) (sys.as_u64 protocol))

  abbrev pub read_whole : Bytes → Result Value → Admission
  read_whole submission (ok value) = record {
    submission = submission;
    runner_reply_error = none;
    reply = some value;
  }
  read_whole submission (err error) = record {
    submission = submission;
    runner_reply_error = some (codes "runner reply is not complete JSON: " ++ error);
    reply = none;
  }

  -- What is made of the reply's bytes: nothing of a reply that was cut.
  unfoldable pub read_reply : Bytes → Bool → Bytes → Admission
  read_reply submission true bytes = record {
    submission = submission;
    runner_reply_error =
        some (codes "runner reply retention was truncated; no complete host reply is available");
    reply = none;
  }
  read_reply submission false bytes = read_whole submission (sys.from_slice bytes)

  abbrev pub is_truncated : Option ReplyCapture → Bool
  is_truncated o = is_some_and (λ (r : ReplyCapture). r.truncated) o

  unfoldable pub admission_of : Capture → Option Bytes → Admission
  unfolding read_reply
  admission_of capture none = record {
    submission = capture.submission.state;
    runner_reply_error = none;
    reply = none;
  }
  admission_of capture (some bytes) =
      read_reply capture.submission.state (is_truncated capture.runner_reply) bytes

  unfoldable pub admit_value : Value → Step Admission
  unfolding get protocol_of check_protocol validate_capture admission_of
  admit_value value = do
    protocol ← protocol_of (get (codes "protocol_version") value)
    current ← check_protocol protocol
    capture ←
        map_err (λ e. (codes "malformed", codes "malformed client capture: " ++ e))
          (sys.from_capture value)
    bytes ← map_err (λ e. (codes "malformed", e)) (validate_capture capture)
    ok (admission_of capture bytes)

  unfoldable pub admit : Option RequestDelivery → JsonOutputCapture → Option Value → Step Admission
  unfolding admit_value
  admit delivery output transport = do
    delivered ← refuse_some (codes "delivery_failed") (delivery_error delivery)
    captured ←
        refuse_some (codes "malformed")
          (or_option output.stdout_capture_error output.stdout_parse_error)
    value ← ok_or transport (codes "missing", codes "runner client produced no capture")
    admit_value value

  -- `match admission`, with what the admission changed of the run.
  unfoldable pub settle : RunnerClientRun → Step Admission → RunnerClientRun × Option Value
  settle run (ok found) = (
    record run {
      transport_admission = codes "accepted";
      submission = found.submission;
      runner_reply_error = found.runner_reply_error;
    },
    found.reply,
  )
  settle run (err refused) =
      (record run { transport_admission = refused.0; transport_error = some refused.1 }, none)

  abbrev pub unadmitted :
      List Bytes
      → ℕ
      → ℕ
      → Output
      → Option RequestDelivery
      → JsonOutputCapture
      → Option Value
      → RunnerClientRun
  unadmitted argv started ended out delivery output transport = record {
    argv = argv;
    started_at_unix_ms = started;
    ended_at_unix_ms = ended;
    exit_code = unwrap_or out.code (pos 1);
    request_delivery = delivery;
    output = output;
    transport = transport;
    transport_admission = codes "missing";
    transport_error = none;
    submission = codes "unknown";
    runner_reply_error = none;
  }

  -- The arguments are the texts of the source's `argv`.
  unfoldable pub parse_runner_client_output :
      List Bytes → ℕ → ℕ → Output → Option RequestDelivery → RunnerClientRun × Option Value
  unfolding capture_json_output admit settle
  parse_runner_client_output argv started ended out delivery =
      let c = capture_json_output out (codes "runner client") runner_capture_bytes in
      settle (unadmitted argv started ended out delivery c.0 c.1) (admit delivery c.0 c.1)

-- `v[key] == text`.
unfoldable pub field_is : Bytes → Bytes → Value → Bool
unfolding get as_str bytes_eq
field_is key text value = is_some_and (λ t. bytes_eq t text) (as_str (get key value))

unfoldable pub fallback_eligible : RunnerClientRun → Bool
unfolding field_is bytes_eq
fallback_eligible run =
    bytes_eq run.transport_admission (codes "accepted")
    && (is_none_or (λ (d : RequestDelivery). is_none_or (λ (e : Bytes). false) d.error)
          run.request_delivery
        && is_some_and (λ v. field_is (codes "terminal") (codes "xpc_error") v) run.transport)
