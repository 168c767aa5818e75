-- ===== src/RunnerClient/Run/Found.antt =====
-- What the value that the client printed is admitted for: `admit_value` in the steps of its body.
use policy_witness.RunnerManager.Kinds.{runner_protocol_version}
use policy_witness.Base.{
  ℕ, Bool, true, false, Option, none, some, if_rule, Bytes, codes, bytes_eq, ResultOf, Result, ok,
  err, map_err, Ends, Ends-bind, ◌≡◌, refl, ap, ◌++◌, is_some_and, ◌==◌, ==_true,
}
use policy_witness.Json.{Value, null, boolean, number, string, array, object, get, Fields}
use policy_witness.RunnerClient.{ReplyCapture, Capture}
use policy_witness.RunnerClient.Validate.{validate_capture}
use policy_witness.RunnerClient.Validate.Admitted.{IsAdmitted, Holds, validate_capture-IsAdmitted}
use policy_witness.RunnerClient.Run.{
  ClientSystem, Admission, Step, refuse_some, protocol_of, check_protocol, current_or_refuse,
  read_whole, read_reply, is_truncated, admission_of, admit_value,
}

-- A status of a refusal.
abbrev pub IsRefusal : Bytes × Bytes → Type 0
IsRefusal refused = bytes_eq refused.0 (codes "accepted") ≡ false

module _ (sys : ClientSystem) where
  -- The reply that is read is JSON of all the bytes of the host's reply.
  abbrev pub IsReply : Capture → Option Bytes → Value → Type 0
  IsReply capture bytes reply =
      (r : ReplyCapture) × (b : Bytes) × ((capture.runner_reply ≡ some r)
        × ((r.truncated ≡ false) × ((bytes ≡ some b) × (sys.from_slice b ≡ ok reply))))

  -- The value is an object of the runner's protocol, and a capture that is admitted.
  pub record IsFound (value : Value) (found : Admission) : Type 0 where
    pub fields : Fields
    pub is_object : value ≡ object fields
    pub protocol : Bytes
    pub versioned : get (codes "protocol_version") value ≡ some (number protocol)
    pub current : sys.as_u64 protocol ≡ some runner_protocol_version
    pub capture : Capture
    pub bytes : Option Bytes
    pub read : sys.from_capture value ≡ ok capture
    pub admitted : IsAdmitted capture bytes
    pub submission : found.submission ≡ capture.submission.state
    pub reply : (v : Value) → found.reply ≡ some v → IsReply capture bytes v

  pub refuse_some-IsRefusal :
      (status : Bytes) (o : Option Bytes)
      → bytes_eq status (codes "accepted") ≡ false
      → Ends (λ u. o ≡ none) IsRefusal (refuse_some status o)
  refuse_some-IsRefusal status none h = refl
  refuse_some-IsRefusal status (some e) h = h

  pub Ends-map :
      {A E : Type 0} (P R : A → Type 0) (Q : E → Type 0) (r : ResultOf E A)
      → ((a : A) → P a → R a)
      → Ends P Q r
      → Ends R Q r
  Ends-map P R Q (ok a) f h = f a h
  Ends-map P R Q (err e) f h = h

  protocol_of-IsRefusal :
      (o : Option Value) → Ends (λ n. o ≡ some (number n)) IsRefusal (protocol_of sys o)
  unfolding protocol_of bytes_eq
  protocol_of-IsRefusal (some (number n)) =
      if_rule (λ (r : Step Bytes). Ends (λ m. some (number n) ≡ some (number m)) IsRefusal r)
        (sys.is_integer n) _ _ (λ t. refl) (λ f. refl)
  protocol_of-IsRefusal none = refl
  protocol_of-IsRefusal (some null) = refl
  protocol_of-IsRefusal (some (boolean b)) = refl
  protocol_of-IsRefusal (some (string b)) = refl
  protocol_of-IsRefusal (some (array b)) = refl
  protocol_of-IsRefusal (some (object b)) = refl

  current_or_refuse-IsRefusal :
      (n : Bytes) (b : Bool) → Ends (λ u. b ≡ true) IsRefusal (current_or_refuse sys n b)
  unfolding bytes_eq
  current_or_refuse-IsRefusal n true = refl
  current_or_refuse-IsRefusal n false = refl

  is_current :
      (o : Option ℕ)
      → is_some_and (λ n. n == runner_protocol_version) o ≡ true
      → o ≡ some runner_protocol_version
  is_current none h = cc
  is_current (some n) h = ap some (==_true n runner_protocol_version h)

  check_protocol-IsRefusal :
      (n : Bytes)
      → Ends (λ u. sys.as_u64 n ≡ some runner_protocol_version) IsRefusal (check_protocol sys n)
  unfolding check_protocol
  check_protocol-IsRefusal n =
      let current = is_some_and (λ n. n == runner_protocol_version) (sys.as_u64 n) in
      Ends-map (λ u. current ≡ true) (λ u. sys.as_u64 n ≡ some runner_protocol_version) IsRefusal
        (current_or_refuse sys n current) (λ u t. is_current (sys.as_u64 n) t)
        (current_or_refuse-IsRefusal n current)

  object_of :
      (key : Bytes) (value v : Value) → get key value ≡ some v → (f : Fields) × (value ≡ object f)
  unfolding get
  object_of key (object f) v h = (f, refl)
  object_of key null v h = absurd cc
  object_of key (boolean b) v h = absurd cc
  object_of key (number b) v h = absurd cc
  object_of key (string b) v h = absurd cc
  object_of key (array b) v h = absurd cc

  map_err-Ends :
      {A : Type 0} (r : Result A) (f : Bytes → Bytes × Bytes)
      → ((e : Bytes) → IsRefusal (f e))
      → Ends (λ a. r ≡ ok a) IsRefusal (map_err f r)
  map_err-Ends (ok a) f h = refl
  map_err-Ends (err e) f h = h e

  read_whole-submission :
      (submission : Bytes) (r : Result Value)
      → (read_whole sys submission r).submission ≡ submission
  read_whole-submission submission (ok v) = refl
  read_whole-submission submission (err e) = refl

  read_whole-reply :
      (submission : Bytes) (r : Result Value) (v : Value)
      → (read_whole sys submission r).reply ≡ some v
      → r ≡ ok v
  read_whole-reply submission (ok w) v h = let same : w ≡ v = cc in ap (λ x. ok x) same
  read_whole-reply submission (err e) v h = cc

  read_reply-submission :
      (submission bytes : Bytes) (b : Bool)
      → (read_reply sys submission b bytes).submission ≡ submission
  unfolding read_reply
  read_reply-submission submission bytes true = refl
  read_reply-submission submission bytes false =
      read_whole-submission submission (sys.from_slice bytes)

  read_reply-reply :
      (submission bytes : Bytes) (b : Bool) (v : Value)
      → (read_reply sys submission b bytes).reply ≡ some v
      → (b ≡ false) × (sys.from_slice bytes ≡ ok v)
  unfolding read_reply
  read_reply-reply submission bytes true v h = cc
  read_reply-reply submission bytes false v h =
      (refl, read_whole-reply submission (sys.from_slice bytes) v h)

  Holds-IsReply :
      (capture : Capture) (o : Option ReplyCapture) (b : Bytes) (v : Value)
      → capture.runner_reply ≡ o
      → Holds o (some b)
      → (read_reply sys capture.submission.state (is_truncated sys o) b).reply ≡ some v
      → IsReply capture (some b) v
  Holds-IsReply capture none b v e h k = cc
  Holds-IsReply capture (some r) b v e h k =
      let p = read_reply-reply capture.submission.state b r.truncated v k in
      (r, b, (e, (p.0, (refl, p.1))))

  admission_of-submission :
      (capture : Capture) (bytes : Option Bytes)
      → (admission_of sys capture bytes).submission ≡ capture.submission.state
  unfolding admission_of
  admission_of-submission capture none = refl
  admission_of-submission capture (some b) =
      read_reply-submission capture.submission.state b (is_truncated sys capture.runner_reply)

  admission_of-reply :
      (capture : Capture) (bytes : Option Bytes)
      → Holds capture.runner_reply bytes
      → (v : Value) → (admission_of sys capture bytes).reply ≡ some v
      → IsReply capture bytes v
  unfolding admission_of
  admission_of-reply capture none a v h = absurd cc
  admission_of-reply capture (some b) a v h =
      Holds-IsReply capture capture.runner_reply b v refl a h

  admission_of-IsFound :
      (value : Value) (capture : Capture) (bytes : Option Bytes) (protocol : Bytes)
      → get (codes "protocol_version") value ≡ some (number protocol)
      → sys.as_u64 protocol ≡ some runner_protocol_version
      → sys.from_capture value ≡ ok capture
      → IsAdmitted capture bytes
      → IsFound value (admission_of sys capture bytes)
  unfolding admission_of
  admission_of-IsFound value capture bytes protocol at current e a =
      let held = object_of (codes "protocol_version") value (number protocol) at in
      record {
        fields = held.0;
        is_object = held.1;
        protocol = protocol;
        versioned = at;
        current = current;
        capture = capture;
        bytes = bytes;
        read = e;
        admitted = a;
        submission = admission_of-submission capture bytes;
        reply = admission_of-reply capture bytes a.holds;
      }

  pub admit_value-IsFound :
      (value : Value) → Ends (λ found. IsFound value found) IsRefusal (admit_value sys value)
  unfolding admit_value bytes_eq
  admit_value-IsFound value =
      let version = get (codes "protocol_version") value in
      let goal = λ (found : Admission). IsFound value found in
      Ends-bind (λ n. version ≡ some (number n)) goal IsRefusal (protocol_of sys version) _
        (protocol_of-IsRefusal version)
        (λ n at.
          Ends-bind (λ u. sys.as_u64 n ≡ some runner_protocol_version) goal IsRefusal
            (check_protocol sys n) _ (check_protocol-IsRefusal n)
            (λ u current.
              let mark : Bytes → Bytes × Bytes =
                λ e. (codes "malformed", codes "malformed client capture: " ++ e) in
              Ends-bind (λ capture. sys.from_capture value ≡ ok capture) goal IsRefusal
                (map_err mark (sys.from_capture value)) _
                (map_err-Ends (sys.from_capture value) mark (λ e. refl))
                (λ capture read.
                  let plain : Bytes → Bytes × Bytes = λ e. (codes "malformed", e) in
                  Ends-bind (λ bytes. validate_capture capture ≡ ok bytes) goal IsRefusal
                    (map_err plain (validate_capture capture)) _
                    (map_err-Ends (validate_capture capture) plain (λ e. refl))
                    (λ bytes valid.
                      admission_of-IsFound value capture bytes n at current read
                        (validate_capture-IsAdmitted capture bytes valid)))))
