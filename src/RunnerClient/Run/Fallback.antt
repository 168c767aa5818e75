-- ===== src/RunnerClient/Run/Fallback.antt =====
-- The runs after which controller/src/runner_client.rs lets the caller fall back.
use policy_witness.Base.{
  ℕ, true, false, ◌&&◌, Option, none, some, List, is_some, is_some_and, is_none_or, and_true, Bytes,
  codes, bytes_eq, bytes_eq_iff, ok, ◌≡◌, refl, sym, subst, ap, ◌∙◌, inl, inr,
}
use policy_witness.Json.{Value, object, Fields, get, as_str}
use policy_witness.RunnerClient.{Capture}
use policy_witness.RunnerClient.Validate.Admitted.{IsAdmitted}
use policy_witness.RunnerClient.Run.{
  RequestDelivery, Output, ClientSystem, RunnerClientRun, parse_runner_client_output, field_is,
  fallback_eligible,
}
use policy_witness.RunnerClient.Run.Accepted.{IsRun, parse_runner_client_output-IsRun}
use policy_witness.RunnerClient.Run.Found.{IsReply}

module _ (sys : ClientSystem)
    (terminal_read : (fields : Fields) (capture : Capture)
      → sys.from_capture (object fields) ≡ ok capture
      → as_str (get (codes "terminal") (object fields)) ≡ some capture.terminal) where
  field_is-terminal :
      (value : Value) (fields : Fields) (capture : Capture)
      → value ≡ object fields
      → sys.from_capture value ≡ ok capture
      → field_is (codes "terminal") (codes "xpc_error") value ≡ true
      → capture.terminal ≡ codes "xpc_error"
  unfolding field_is
  field_is-terminal value fields capture e read h =
      let t =
        subst (λ o. is_some_and (λ t. bytes_eq t (codes "xpc_error")) o ≡ true)
          (subst (λ v. as_str (get (codes "terminal") v) ≡ some capture.terminal) (sym e)
            (terminal_read fields capture (subst (λ v. sys.from_capture v ≡ ok capture) e read)))
          h in
      (bytes_eq_iff capture.terminal (codes "xpc_error")).0 t

  no_reply :
      (capture : Capture) (bytes : Option Bytes) (o : Option Value)
      → IsAdmitted capture bytes
      → capture.terminal ≡ codes "xpc_error"
      → ((v : Value) → o ≡ some v → IsReply sys capture bytes v)
      → o ≡ none
  unfolding bytes_eq
  no_reply capture bytes none a e h = refl
  no_reply capture bytes (some v) a e h =
      let held = (h v refl).2.0 in
      let at : capture.terminal ≡ codes "runner_reply" = a.replied.1 (ap is_some held) in
      absurd
        (let t = (bytes_eq_iff (codes "xpc_error") (codes "runner_reply")).1 (sym e ∙ at) in cc)

  run-Fallback :
      (delivery : Option RequestDelivery) (out : Output) (run : RunnerClientRun)
      (reply : Option Value)
      → IsRun sys delivery out run reply
      → fallback_eligible run ≡ true
      → (reply ≡ none) × (run.submission ≡ codes "invoked")
  unfolding fallback_eligible
  run-Fallback delivery out run reply (sent, inr (f, rest)) h =
      absurd (let t = (and_true (bytes_eq run.transport_admission (codes "accepted")) _ h).0 in cc)
  run-Fallback delivery out run reply
        (same, inl (accepted, (sent, (value, (printed, (at, found)))))) h =
      let sent_test =
        is_none_or (λ (d : RequestDelivery). is_none_or (λ (e : Bytes). false) d.error)
          run.request_delivery in
      let is_error = λ (v : Value). field_is (codes "terminal") (codes "xpc_error") v in
      let p =
        and_true (bytes_eq run.transport_admission (codes "accepted"))
          (sent_test && is_some_and is_error run.transport) h in
      let q = and_true sent_test (is_some_and is_error run.transport) p.1 in
      let field = subst (λ o. is_some_and is_error o ≡ true) at q.1 in
      let terminal =
        field_is-terminal value found.fields found.capture found.is_object found.read field in
      (
        no_reply found.capture found.bytes reply found.admitted terminal found.reply,
        found.submission ∙ (found.admitted.xpc_error terminal).state,
      )

  -- Where serde reads the terminal event of a capture that is an object from the key of that name,
  -- a run that is eligible for the fallback has no reply of the host, and its execution was invoked.
  pub fallback_eligible-invoked :
      (argv : List Bytes) (started ended : ℕ) (out : Output) (delivery : Option RequestDelivery)
      → fallback_eligible (parse_runner_client_output sys argv started ended out delivery).0 ≡ true
      → (let done = parse_runner_client_output sys argv started ended out delivery in
          (done.1 ≡ none) × (done.0.submission ≡ codes "invoked"))
  fallback_eligible-invoked argv started ended out delivery h =
      let done = parse_runner_client_output sys argv started ended out delivery in
      run-Fallback delivery out done.0 done.1
        (parse_runner_client_output-IsRun sys argv started ended out delivery) h
