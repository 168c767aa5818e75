-- ===== src/RunnerClient/Run/Accepted.antt =====
-- What a run of the client is accepted for.
use policy_witness.Base.{
  ℕ, Bool, true, false, Option, none, some, List, Bytes, codes, bytes_eq, Result, ok, err, ok_or,
  Ends, Ends-bind, ◌≡◌, refl, ap, ◌⊎◌, inl, inr, [], ◌∷◌, le_of_leb, leb, length, ◌≤◌, Bool-cases,
}
use policy_witness.Json.{Value}
use policy_witness.RunnerClient.Run.{
  RequestDelivery, Output, ClientSystem, JsonOutputCapture, RunnerClientRun, Admission, Step,
  delivery_error, refuse_some, or_option, admit_value, admit, settle, unadmitted,
  capture_json_output, runner_capture_bytes, parse_runner_client_output, ok_of, parsed_of,
  parse_stdout, truncate_output,
}
use policy_witness.RunnerClient.Run.Found.{
  IsRefusal, IsFound, refuse_some-IsRefusal, Ends-map, admit_value-IsFound,
}

module _ (sys : ClientSystem) where
  -- The client printed the value, within the limit.
  abbrev pub Printed : Output → Value → Type 0
  Printed out value =
      (length out.stdout ≤ runner_capture_bytes) × (sys.from_slice out.stdout ≡ ok value)

  truncate_output-within :
      (bytes : Bytes) (limit : ℕ)
      → (truncate_output sys bytes limit).1 ≡ false
      → length bytes ≤ limit
  unfolding truncate_output
  truncate_output-within bytes limit = elim (Bool-cases (leb (length bytes) limit)) [
    | inl t ↦ rw t (λ h. le_of_leb (length bytes) limit t)
    | inr f ↦ rw f (λ h. cc)
  ]

  parsed_of-read :
      (truncated : Bool) (stdout : Bytes) (value : Value)
      → parsed_of sys (parse_stdout sys truncated stdout) ≡ some value
      → (truncated ≡ false) × (sys.from_slice stdout ≡ ok value)
  parsed_of-read true stdout value h = absurd cc
  parsed_of-read false [] value h = absurd cc
  parsed_of-read false (b ∷ stdout) value h =
      (refl, ok_of-some (sys.from_slice (b ∷ stdout)) value h)
    where
      ok_of-some : (r : Result Value) (v : Value) → ok_of r ≡ some v → r ≡ ok v
      ok_of-some (ok w) v h = let same : w ≡ v = cc in ap (λ x. ok x) same
      ok_of-some (err e) v h = absurd cc

  capture_json_output-Printed :
      (out : Output) (producer : Bytes) (value : Value)
      → (capture_json_output sys out producer runner_capture_bytes).1 ≡ some value
      → Printed out value
  unfolding capture_json_output
  capture_json_output-Printed out producer value h =
      let cut = (truncate_output sys out.stdout runner_capture_bytes).1 in
      let p = parsed_of-read cut out.stdout value h in
      (truncate_output-within out.stdout runner_capture_bytes p.0, p.1)

  -- What an admission rests on.
  abbrev Rests : Option RequestDelivery → Option Value → Admission → Type 0
  Rests delivery transport found =
      (delivery_error delivery ≡ none)
      × ((value : Value) × ((transport ≡ some value) × IsFound sys value found))

  value_or_missing :
      (transport : Option Value)
      → Ends
          (λ value. transport ≡ some value)
          IsRefusal
          (ok_or transport (codes "missing", codes "runner client produced no capture"))
  unfolding bytes_eq
  value_or_missing none = refl
  value_or_missing (some value) = refl

  admit-Rests :
      (delivery : Option RequestDelivery) (output : JsonOutputCapture) (transport : Option Value)
      → Ends (Rests delivery transport) IsRefusal (admit sys delivery output transport)
  unfolding admit bytes_eq
  admit-Rests delivery output transport =
      let problem = or_option output.stdout_capture_error output.stdout_parse_error in
      let goal = Rests delivery transport in
      Ends-bind (λ u. delivery_error delivery ≡ none) goal IsRefusal
        (refuse_some (codes "delivery_failed") (delivery_error delivery)) _
        (refuse_some-IsRefusal sys (codes "delivery_failed") (delivery_error delivery) refl)
        (λ u sent.
          Ends-bind (λ u. problem ≡ none) goal IsRefusal (refuse_some (codes "malformed") problem) _
            (refuse_some-IsRefusal sys (codes "malformed") problem refl)
            (λ u whole.
              Ends-bind (λ value. transport ≡ some value) goal IsRefusal
                (ok_or transport (codes "missing", codes "runner client produced no capture")) _
                (value_or_missing transport)
                (λ value at.
                  Ends-map sys (IsFound sys value) goal IsRefusal (admit_value sys value)
                    (λ found f. (sent, (value, (at, f)))) (admit_value-IsFound sys value))))

  -- A run that is accepted rests on a delivery without an error and on an admitted capture that the
  -- client printed; any other has no reply and does not know whether the execution was submitted.
  abbrev pub IsRun : Option RequestDelivery → Output → RunnerClientRun → Option Value → Type 0
  IsRun delivery out run reply =
      (run.request_delivery ≡ delivery)
      × (((run.transport_admission ≡ codes "accepted")
            × ((delivery_error delivery ≡ none)
                × ((value : Value) × (Printed out value
                      × ((run.transport ≡ some value)
                          × IsFound sys value (record {
                            submission = run.submission;
                            runner_reply_error = run.runner_reply_error;
                            reply = reply;
                          }))))))
          ⊎ ((bytes_eq run.transport_admission (codes "accepted") ≡ false)
              × ((reply ≡ none) × (run.submission ≡ codes "unknown"))))

  settle-IsRun :
      (out : Output) (run : RunnerClientRun) (admission : Step Admission)
      → run.submission ≡ codes "unknown"
      → ((value : Value) → run.transport ≡ some value → Printed out value)
      → Ends (Rests run.request_delivery run.transport) IsRefusal admission
      → (let done = settle sys run admission in IsRun run.request_delivery out done.0 done.1)
  unfolding settle
  settle-IsRun out run (ok found) u printed (sent, (value, (at, f))) =
      (refl, inl (refl, (sent, (value, (printed value at, (at, f))))))
  settle-IsRun out run (err refused) u printed h = (refl, inr (h, (refl, u)))

  -- The run is accepted only where the delivery had no error and the client's output, within 272
  -- MiB, is JSON for an object of the current protocol that is read as a capture and admitted; the
  -- submission's state is then the capture's, and a reply is JSON of the whole of the host's bytes,
  -- none of them cut. A run that is not accepted has no reply, and its submission is unknown.
  pub parse_runner_client_output-IsRun :
      (argv : List Bytes) (started ended : ℕ) (out : Output) (delivery : Option RequestDelivery)
      → (let done = parse_runner_client_output sys argv started ended out delivery in
          IsRun delivery out done.0 done.1)
  unfolding parse_runner_client_output
  parse_runner_client_output-IsRun argv started ended out delivery =
      let c = capture_json_output sys out (codes "runner client") runner_capture_bytes in
      settle-IsRun out (unadmitted sys argv started ended out delivery c.0 c.1)
        (admit sys delivery c.0 c.1) refl
        (λ value at. capture_json_output-Printed out (codes "runner client") value at)
        (admit-Rests delivery c.0 c.1)
