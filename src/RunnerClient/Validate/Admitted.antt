-- ===== src/RunnerClient/Validate/Admitted.antt =====
-- What a capture that `validate_capture` of controller/src/runner_client.rs admits says.
use policy_witness.Base.{
  ℕ, ◌≤◌, Bool, true, false, not, ◌&&◌, ◌||◌, Option, none, some, [], ◌==◌, ==_true, and_true, leb,
  ltb, length, All, is_some, is_some_and, is_none_or, Bytes, codes, bytes_eq, bytes_eq_iff, ok, err,
  went_on, ok_injective, ◌≡◌, refl, sym, subst, ap, ◌∙◌, ◌⊎◌, inl, inr, ◌↔◌, arith, Bool-cases,
  false_of_not, then_branch, else_branch, le_of_leb,
}
use policy_witness.RunnerClient.{
  reply_capture_bytes, attempt_limit, i64_max, ReplyCapture, Capture, required, same_bool,
  required_last,
}
use policy_witness.RunnerClient.Base64.{decode_base64, encode_base64}
use policy_witness.RunnerClient.Base64.Encoded.{IsByte}
use policy_witness.RunnerClient.Base64.RoundTrip.{decode_base64-encode_base64}
use policy_witness.RunnerClient.Attempts.{check_attempts, check_error}
use policy_witness.RunnerClient.Attempts.Chain.{IsChain, last_end, check_attempts-IsChain}
use policy_witness.RunnerClient.Validate.{
  check_identity, check_clock, elapsed_of, last_outcome, last_is, terminal_is, check_stop,
  check_uninvoked, check_invoked, check_submission, check_refusal, check_terminal, min_of,
  check_reply, check_end_state, validate_capture,
}

-- A reply that was retained: its bytes are what the frame's text spells, and as many as it says.
pub record IsRetained (reply : ReplyCapture) (bytes : Bytes) : Type 0 where
  pub spelled : encode_base64 bytes ≡ reply.data_base64
  pub byte_values : All IsByte bytes
  pub retained : length bytes ≡ min_of reply.bytes_received reply_capture_bytes
  pub truncated : reply.truncated ≡ ltb (length bytes) reply.bytes_received

abbrev pub Holds : Option ReplyCapture → Option Bytes → Type 0
Holds none reply = reply ≡ none
Holds (some r) reply = (bytes : Bytes) × ((reply ≡ some bytes) × IsRetained r bytes)

-- The execution was not invoked, and there is nothing from the host.
pub record IsUninvoked (value : Capture) : Type 0 where
  pub state : value.submission.state ≡ codes "not_invoked"
  pub untimed : value.submission.invoked_elapsed_ms ≡ none
  pub no_reply : value.runner_reply ≡ none
  pub no_refusal : value.submission_refusal ≡ none

-- The execution was invoked, after the last attempt, which was granted.
pub record IsInvoked (value : Capture) : Type 0 where
  pub state : value.submission.state ≡ codes "invoked"
  pub granted : last_outcome value.attempts ≡ some (codes "granted")
  pub stop : value.acquisition_stop ≡ codes "granted"
  pub after : (n : ℕ) → value.submission.invoked_elapsed_ms ≡ some n → last_end 0 value.attempts ≤ n

pub record IsAdmitted (value : Capture) (reply : Option Bytes) : Type 0 where
  pub within : length value.attempts ≤ attempt_limit
  pub chain : IsChain 0 0 [] value.attempts
  pub submission : IsUninvoked value ⊎ IsInvoked value
  pub holds : Holds value.runner_reply reply
  pub replied : (value.terminal ≡ codes "runner_reply") ↔ (is_some value.runner_reply ≡ true)
  pub xpc_error : value.terminal ≡ codes "xpc_error" → IsInvoked value

eq_of_same_bool : (a b : Bool) → same_bool a b ≡ true → a ≡ b
eq_of_same_bool true b h = sym h
eq_of_same_bool false b h = sym (false_of_not b h)

check_reply-Holds :
    (o : Option ReplyCapture) (reply : Option Bytes) → check_reply o ≡ ok reply → Holds o reply
unfolding check_reply
check_reply-Holds none reply h = sym (ok_injective h)
check_reply-Holds (some r) reply h =
    let limit = leb r.bytes_received i64_max in
    let count = r.bytes_retained == min_of r.bytes_received reply_capture_bytes in
    let cut = same_bool r.truncated (ltb r.bytes_retained r.bytes_received) in
    let p = required (limit && (count && cut)) (codes "inconsistent reply byte retention") _ h in
    let q = went_on (decode_base64 r.data_base64) _ p.1 in
    let s =
      required (length q.0 == r.bytes_retained)
        (codes "reply base64 length disagrees with retained count") (ok (some q.0)) q.2 in
    let facts = and_true count cut (and_true limit (count && cut) p.0).1 in
    let whole = ==_true (length q.0) r.bytes_retained s.0 in
    let spelled = (decode_base64-encode_base64 r.data_base64 q.0).0 q.1 in
    (
      q.0,
      (
        sym (ok_injective s.1),
        record {
          spelled = spelled.1.1;
          byte_values = spelled.0;
          retained =
              whole
              ∙ ==_true r.bytes_retained (min_of r.bytes_received reply_capture_bytes) facts.0;
          truncated =
              eq_of_same_bool r.truncated (ltb r.bytes_retained r.bytes_received) facts.1
              ∙ ap (λ n. ltb n r.bytes_received) (sym whole);
        },
      ),
    )

none_of : {A : Type 0} (o : Option A) → not (is_some o) ≡ true → o ≡ none
none_of none h = refl
none_of (some a) h = cc

last_granted :
    (o : Option Bytes)
    → is_some_and (λ s. bytes_eq s (codes "granted")) o ≡ true
    → o ≡ some (codes "granted")
last_granted none h = cc
last_granted (some s) h = ap some ((bytes_eq_iff s (codes "granted")).0 h)

after_end :
    (previous n : ℕ) (elapsed o : Option ℕ)
    → is_none_or (λ (n : ℕ). leb previous n && is_none_or (λ (total : ℕ). leb n total) elapsed) o
      ≡ true
    → o ≡ some n
    → previous ≤ n
after_end previous n elapsed none h e = cc
after_end previous n elapsed (some m) h e =
    let p = and_true (leb previous m) (is_none_or (λ (total : ℕ). leb m total) elapsed) h in
    let same : m ≡ n = cc in ground (arith, p.0, same)

-- What the check of the submission's state says, by its answer.
Submitted : Capture → Bool → Type 0
Submitted value false =
    (value.submission.state ≡ codes "not_invoked") × (value.submission.invoked_elapsed_ms ≡ none)
Submitted value true = IsInvoked value

check_uninvoked-Submitted :
    (value : Capture) (invoked : Bool)
    → bytes_eq value.submission.state (codes "not_invoked") ≡ true
    → check_uninvoked value.submission ≡ ok invoked
    → Submitted value invoked
unfolding check_uninvoked Submitted
check_uninvoked-Submitted value invoked t h =
    let p =
      required (not (is_some value.submission.invoked_elapsed_ms))
        (codes "uninvoked submission carries invocation time") (ok false) h in
    let same : false ≡ invoked = ok_injective p.1 in
    subst (λ b. Submitted value b) same
      (
        (bytes_eq_iff value.submission.state (codes "not_invoked")).0 t,
        none_of value.submission.invoked_elapsed_ms p.0,
      )

check_invoked-Submitted :
    (value : Capture) (elapsed : Option ℕ) (previous : ℕ) (invoked : Bool)
    → previous ≡ last_end 0 value.attempts
    → bytes_eq value.submission.state (codes "invoked") ≡ true
    → check_invoked value (last_is (codes "granted") value) elapsed previous ≡ ok invoked
    → Submitted value invoked
unfolding check_invoked Submitted
check_invoked-Submitted value elapsed previous invoked e t h =
    let stop = bytes_eq value.acquisition_stop (codes "granted") in
    let p =
      required (last_is (codes "granted") value && stop)
        (codes "submission lacks its reservation grant") _ h in
    let q =
      required (not value.clock_available || is_some value.submission.invoked_elapsed_ms)
        (codes "available invocation clock lacks its reading") _ p.1 in
    let r =
      required
        (is_none_or (λ (n : ℕ). leb previous n && is_none_or (λ (total : ℕ). leb n total) elapsed)
          value.submission.invoked_elapsed_ms)
        (codes "invalid execution invocation time") (ok true) q.1 in
    let same : true ≡ invoked = ok_injective r.1 in
    let reserved = and_true (last_is (codes "granted") value) stop p.0 in
    subst (λ b. Submitted value b) same
      (record {
        state = (bytes_eq_iff value.submission.state (codes "invoked")).0 t;
        granted = last_granted (last_outcome value.attempts) reserved.0;
        stop = (bytes_eq_iff value.acquisition_stop (codes "granted")).0 reserved.1;
        after = λ n at.
            subst (λ m. m ≤ n) e
              (after_end previous n elapsed value.submission.invoked_elapsed_ms r.0 at);
      })

check_submission-Submitted :
    (value : Capture) (elapsed : Option ℕ) (previous : ℕ) (invoked : Bool)
    → previous ≡ last_end 0 value.attempts
    → check_submission value (last_is (codes "granted") value) elapsed previous ≡ ok invoked
    → Submitted value invoked
unfolding check_submission
check_submission-Submitted value elapsed previous invoked e h =
    let first = bytes_eq value.submission.state (codes "not_invoked") in
    let second = bytes_eq value.submission.state (codes "invoked") in
    let granted = last_is (codes "granted") value in
    elim (Bool-cases first) [
      | inl t ↦
          check_uninvoked-Submitted value invoked t
            (then_branch first (check_uninvoked value.submission) _ t h)
      | inr f ↦
          let later = else_branch first (check_uninvoked value.submission) _ f h in
          elim (Bool-cases second) [
            | inl t ↦
                check_invoked-Submitted value elapsed previous invoked e t
                  (then_branch second (check_invoked value granted elapsed previous) _ t later)
            | inr g ↦ absurd (
                let refused =
                  else_branch second (check_invoked value granted elapsed previous)
                    (err (codes "unknown client submission state")) g later in
                cc)
          ]
    ]

-- An XPC error is terminal only for an execution that was invoked.
check_terminal-xpc_error :
    (value : Capture) (invoked : Bool)
    → check_terminal value invoked ≡ ok tt
    → value.terminal ≡ codes "xpc_error"
    → invoked ≡ true
unfolding check_terminal bytes_eq
check_terminal-xpc_error value invoked h e =
    let is = λ (text : Bytes). λ (b : Bool). terminal_is text value ≡ b in
    let not_reply : terminal_is (codes "runner_reply") value ≡ false =
      subst (λ t. bytes_eq t (codes "runner_reply") ≡ false) (sym e) refl in
    let not_refused : terminal_is (codes "submission_refused") value ≡ false =
      subst (λ t. bytes_eq t (codes "submission_refused") ≡ false) (sym e) refl in
    let at : terminal_is (codes "xpc_error") value ≡ true =
      subst (λ t. bytes_eq t (codes "xpc_error") ≡ true) (sym e) refl in
    let p = else_branch (terminal_is (codes "runner_reply") value) _ _ not_reply h in
    let q = else_branch (terminal_is (codes "submission_refused") value) _ _ not_refused p in
    let r = then_branch (terminal_is (codes "xpc_error") value) _ _ at q in
    (and_true invoked _ (required_last _ (codes "invalid post-submission XPC error") r)).0

-- What the checks after the submission say.
record IsEnd (value : Capture) (invoked : Bool) (reply : Option Bytes) : Type 0 where
  no_host : invoked ≡ false → (value.runner_reply ≡ none) × (value.submission_refusal ≡ none)
  same : is_some value.runner_reply ≡ terminal_is (codes "runner_reply") value
  error : value.terminal ≡ codes "xpc_error" → invoked ≡ true
  holds : Holds value.runner_reply reply

or_true : (a b : Bool) → (a || b) ≡ true → a ≡ false → b ≡ true
or_true false b h f = h
or_true true b h f = cc

check_end_state-IsEnd :
    (value : Capture) (granted invoked : Bool) (reply : Option Bytes)
    → check_end_state value granted invoked ≡ ok reply
    → IsEnd value invoked reply
unfolding check_end_state
check_end_state-IsEnd value granted invoked reply h =
    let nothing = not (is_some value.runner_reply) && not (is_some value.submission_refusal) in
    let p = required (invoked || nothing) (codes "uninvoked execution carries a host reply") _ h in
    let same = same_bool (is_some value.runner_reply) (terminal_is (codes "runner_reply") value) in
    let q = required same (codes "terminal disagrees with host reply capture") _ p.1 in
    let r =
      required
        (not (terminal_is (codes "submission_refused") value) || is_some value.submission_refusal)
        (codes "terminal lacks its control refusal") _ q.1 in
    let refusal = went_on (check_refusal value invoked value.submission_refusal) _ r.1 in
    let terminal = went_on (check_terminal value invoked) _ refusal.2 in
    let lost =
      required
        (not (granted && not invoked)
          || (terminal_is (codes "xpc_timeout") value || terminal_is (codes "local_error") value))
        (codes "grant lost without an explicit pre-invocation stop") _ terminal.2 in
    record {
      no_host = λ f.
          let both =
            and_true (not (is_some value.runner_reply)) _ (or_true invoked nothing p.0 f) in
          (none_of value.runner_reply both.0, none_of value.submission_refusal both.1);
      same =
          eq_of_same_bool (is_some value.runner_reply) (terminal_is (codes "runner_reply") value)
            q.0;
      error = check_terminal-xpc_error value invoked terminal.1;
      holds = check_reply-Holds value.runner_reply reply lost.1;
    }

submitted :
    (value : Capture) (invoked : Bool) (reply : Option Bytes)
    → Submitted value invoked
    → IsEnd value invoked reply
    → IsUninvoked value ⊎ IsInvoked value
unfolding Submitted
submitted value true reply s e = inr s
submitted value false reply s e =
    let none_held = e.no_host refl in
    inl (record { state = s.0; untimed = s.1; no_reply = none_held.0; no_refusal = none_held.1 })

-- A capture that is admitted has at most 256 attempts, numbered from 1, with different identifiers,
-- none before the end of the one before it, and only the last may be granted, for at most 5000 ms.
-- Either its execution was not invoked, and nothing of the host is held, or it was invoked after
-- the last attempt was granted; so it was where the terminal event is an XPC error. The reply that
-- is held is the bytes that the text of the frame encodes, up to 92 MiB of those received and with
-- the flag that says whether any was cut; there is one exactly when the terminal event is a reply.
pub validate_capture-IsAdmitted :
    (value : Capture) (reply : Option Bytes)
    → validate_capture value ≡ ok reply
    → IsAdmitted value reply
unfolding validate_capture Submitted
validate_capture-IsAdmitted value reply h =
    let granted = last_is (codes "granted") value in
    let identity = went_on (check_identity value) _ h in
    let clock = went_on (check_clock value value.clock_available) _ identity.2 in
    let elapsed =
      went_on (elapsed_of value.started_continuous_ns value.ended_continuous_ns) _ clock.2 in
    let limit =
      required (leb (length value.attempts) attempt_limit) (codes "too many acquisition attempts") _
        elapsed.2 in
    let seen =
      went_on
        (check_attempts value.clock_available elapsed.0 0 value.attempts
          (record { previous_end = 0; ids = [] }))
        _ limit.1 in
    let error = went_on (check_error value.error) _ seen.2 in
    let stop = went_on (check_stop value granted) _ error.2 in
    let invoked = went_on (check_submission value granted elapsed.0 seen.0.previous_end) _ stop.2 in
    let chain =
      check_attempts-IsChain value.clock_available elapsed.0 0 value.attempts
        (record { previous_end = 0; ids = [] }) seen.0 seen.1 in
    let state =
      check_submission-Submitted value elapsed.0 seen.0.previous_end invoked.0 chain.1 invoked.1 in
    let after = check_end_state-IsEnd value granted invoked.0 reply invoked.2 in
    record {
      within = le_of_leb (length value.attempts) attempt_limit limit.0;
      chain = chain.0;
      submission = submitted value invoked.0 reply state after;
      holds = after.holds;
      replied = (
        λ e. after.same ∙ (bytes_eq_iff value.terminal (codes "runner_reply")).1 e,
        λ t. (bytes_eq_iff value.terminal (codes "runner_reply")).0 (sym after.same ∙ t),
      );
      xpc_error = λ e. subst (λ b. Submitted value b) (after.error e) state;
    }
