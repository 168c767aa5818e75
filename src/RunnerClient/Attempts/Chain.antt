-- ===== src/RunnerClient/Attempts/Chain.antt =====
-- What the attempts of a capture that is admitted are.
use policy_witness.Base.{
  ℕ, ◌+◌, ◌≤◌, Bool, true, false, not, ◌&&◌, ◌||◌, Option, none, some, List, [], ◌∷◌, ◌==◌, ==_true,
  and_true, leb, length, any, is_empty, is_empty_lem, is_some, is_some_and, Bytes, codes, bytes_eq,
  bytes_eq_iff, ok, went_on, unwrap_or, ok_injective, In, ◌≡◌, refl, sym, subst, ap, ◌∙◌, inl, inr,
  arith, ltb, all, false_of_not, then_branch,
}
use policy_witness.RunnerClient.{
  Control, Attempt, require, required, uuid, validate_control, validate_claims, validate_status,
  control_bytes, i64_max, is_positive, is_lower_hexdigit, required_last,
}
use policy_witness.RunnerClient.Attempts.{
  Seen, lower_id, check_start, check_end, check_control, check_attempt_error, check_outcome,
  check_terminal_attempt, check_attempt, check_attempts, is_status, status_of,
}

-- A control message that grants a lease of at most 5000 ms.
pub record IsGrant (control : Control) : Type 0 where
  pub status : control.status ≡ some (codes "granted")
  pub lease : ℕ
  pub leased : control.lease_ms ≡ some lease
  pub least : 1 ≤ lease
  pub most : lease ≤ 5000

-- The end of the last attempt that has one.
abbrev pub last_end : ℕ → List Attempt → ℕ
last_end previous [] = previous
last_end previous (a ∷ rest) = last_end (unwrap_or a.ended_elapsed_ms previous) rest

-- The attempts from an index on, after some end and some identifiers.
abbrev pub IsChain : ℕ → ℕ → List Bytes → List Attempt → Type 0
IsChain index previous ids [] = Unit
IsChain index previous ids (a ∷ rest) =
    (a.ordinal ≡ index + 1)
    × (((start : ℕ) → a.started_elapsed_ms ≡ some start → previous ≤ start)
        × ((In (lower_id a) ids → ⊥)
            × ((a.outcome ≡ codes "granted"
                  → (rest ≡ [])
                    × ((control : Control) × ((a.control ≡ some control) × IsGrant control)))
                × IsChain (index + 1) (unwrap_or a.ended_elapsed_ms previous) (lower_id a ∷ ids)
                    rest)))

or_false : (a b : Bool) → (a || b) ≡ false → b ≡ false
or_false true b h = cc
or_false false b h = h

any-In : (id : Bytes) (ids : List Bytes) → any (λ i. bytes_eq i id) ids ≡ false → In id ids → ⊥
unfolding any
any-In id [] h m = m
any-In id (i ∷ ids) h (inl e) = absurd (let t = (bytes_eq_iff i id).1 (sym e) in cc)
any-In id (i ∷ ids) h (inr m) = any-In id ids (or_false (bytes_eq i id) _ h) m

lease_of :
    (o : Option ℕ)
    → is_some_and (λ n. leb 1 n && leb n 5000) o ≡ true
    → (n : ℕ) × ((o ≡ some n) × ((1 ≤ n) × (n ≤ 5000)))
lease_of (some n) h =
    let p = and_true (leb 1 n) (leb n 5000) h in
    (n, (refl, (ground (arith, p.0), ground (arith, p.1))))
lease_of none h = cc

validate_claims-IsGrant :
    (control : Control)
    → validate_claims control (some (codes "granted")) ≡ ok tt
    → (n : ℕ) × ((control.lease_ms ≡ some n) × ((1 ≤ n) × (n ≤ 5000)))
unfolding validate_claims validate_status bytes_eq
validate_claims-IsGrant control h =
    let p =
      required (ltb 0 control.bytes_received && leb control.bytes_received control_bytes)
        (codes "admitted control exceeds its byte boundary") _ h in
    let q =
      required (is_some_and is_positive control.host_pid && is_some_and uuid control.host_instance)
        (codes "admitted control lacks host-reported identity") _ p.1 in
    let r =
      required_last
        (is_some_and (λ n. leb 1 n && leb n 5000) control.lease_ms && not (is_some control.reason))
        (codes "invalid granted lease") q.1 in
    lease_of control.lease_ms (and_true _ _ r).0

validate_control-IsGrant :
    (control : Control)
    → validate_control control ≡ ok tt
    → control.status ≡ some (codes "granted")
    → IsGrant control
unfolding validate_control
validate_control-IsGrant control h s =
    let p =
      required (leb control.bytes_received i64_max) (codes "invalid control byte count") _ h in
    let q =
      required (length control.sha256 == 64 && all is_lower_hexdigit control.sha256)
        (codes "invalid control byte hash") (validate_claims control control.status) p.1 in
    let r =
      validate_claims-IsGrant control (subst (λ o. validate_claims control o ≡ ok tt) s q.1) in
    record { status = s; lease = r.0; leased = r.1.0; least = r.1.1.0; most = r.1.1.1 }

-- An admitted attempt that was granted is the last, and its control message is the grant.
check_outcome-granted :
    (is_last : Bool) (a : Attempt)
    → check_outcome is_last a ≡ ok tt
    → a.outcome ≡ codes "granted"
    → (is_status (codes "granted") (status_of a.control) ≡ true) × (is_last ≡ true)
unfolding check_outcome
check_outcome-granted is_last a h e =
    let t = (bytes_eq_iff a.outcome (codes "granted")).1 e in
    let test = is_status (codes "granted") (status_of a.control) in
    let rest = not (is_some a.error) && is_last in
    let first =
      then_branch (bytes_eq a.outcome (codes "granted"))
        (require (test && rest) (codes "invalid granted attempt")) _ t h in
    let p =
      and_true test rest (required_last (test && rest) (codes "invalid granted attempt") first) in
    (p.0, (and_true (not (is_some a.error)) is_last p.1).1)

granted_control :
    (o : Option Control)
    → check_control o ≡ ok tt
    → is_status (codes "granted") (status_of o) ≡ true
    → (control : Control) × ((o ≡ some control) × IsGrant control)
granted_control none h t = cc
granted_control (some control) h t =
    (control, (refl, validate_control-IsGrant control h (granted_status control.status t)))
  where
    granted_status :
        (o : Option Bytes) → is_status (codes "granted") o ≡ true → o ≡ some (codes "granted")
    granted_status none t = cc
    granted_status (some s) t = ap some ((bytes_eq_iff s (codes "granted")).0 t)

-- The end of an attempt that is admitted.
check_end_lem :
    (elapsed : Option ℕ) (previous end : ℕ) (started o : Option ℕ)
    → check_end elapsed previous started o ≡ ok end
    → end ≡ unwrap_or o previous
unfolding check_end
check_end_lem elapsed previous end started none h = sym (ok_injective h)
check_end_lem elapsed previous end started (some e) h =
    let p = required _ (codes "invalid acquisition attempt end") _ h in sym (ok_injective p.1)

check_start_lem :
    (previous start : ℕ) (o : Option ℕ)
    → check_start previous o ≡ ok tt
    → o ≡ some start
    → previous ≤ start
unfolding check_start
check_start_lem previous start none h e = cc
check_start_lem previous start (some s) h e =
    let t = required_last (leb previous s) (codes "backwards acquisition chronology") h in
    let same : s ≡ start = cc in ground (arith, t, same)

-- What one round of the loop went through.
Passed : ℕ → Bool → Attempt → Seen → Seen → Type 0
Passed index is_last a seen next =
    (a.ordinal ≡ index + 1)
    × (((start : ℕ) → a.started_elapsed_ms ≡ some start → seen.previous_end ≤ start)
        × ((In (lower_id a) seen.ids → ⊥)
            × ((a.outcome ≡ codes "granted"
                  → (is_last ≡ true)
                    × ((control : Control) × ((a.control ≡ some control) × IsGrant control)))
                × ((next.previous_end ≡ unwrap_or a.ended_elapsed_ms seen.previous_end)
                    × (next.ids ≡ lower_id a ∷ seen.ids)))))

module _ (clock_available : Bool) (elapsed : Option ℕ) where
  check_attempt-Passed :
      (index : ℕ) (is_last : Bool) (a : Attempt) (seen next : Seen)
      → check_attempt clock_available elapsed index is_last a seen ≡ ok next
      → Passed index is_last a seen next
  unfolding check_attempt Passed
  check_attempt-Passed index is_last a seen next h =
      let known = any (λ i. bytes_eq i (lower_id a)) seen.ids in
      let p =
        required (a.ordinal == index + 1 && (uuid a.attempt_id && not known))
          (codes "invalid acquisition attempt identity") _ h in
      let q =
        required
          (not clock_available || (is_some a.started_elapsed_ms && is_some a.ended_elapsed_ms))
          (codes "available attempt clock lacks readings") _ p.1 in
      let started = went_on (check_start seen.previous_end a.started_elapsed_ms) _ q.1 in
      let ended =
        went_on (check_end elapsed seen.previous_end a.started_elapsed_ms a.ended_elapsed_ms) _
          started.2 in
      let control = went_on (check_control a.control) _ ended.2 in
      let error = went_on (check_attempt_error a.outcome a.error) _ control.2 in
      let outcome = went_on (check_outcome is_last a) _ error.2 in
      let terminal = went_on (check_terminal_attempt is_last a.outcome) _ outcome.2 in
      let same = ok_injective terminal.2 in
      let identity = and_true (a.ordinal == index + 1) (uuid a.attempt_id && not known) p.0 in
      let fresh = false_of_not known (and_true (uuid a.attempt_id) (not known) identity.1).1 in
      (
        ==_true a.ordinal (index + 1) identity.0,
        (
          λ start e. check_start_lem seen.previous_end start a.started_elapsed_ms started.1 e,
          (
            any-In (lower_id a) seen.ids fresh,
            (
              λ e.
                  let g = check_outcome-granted is_last a outcome.1 e in
                  (g.1, granted_control a.control control.1 g.0),
              (
                sym (ap (λ (s : Seen). s.previous_end) same)
                    ∙ check_end_lem elapsed seen.previous_end ended.0 a.started_elapsed_ms
                        a.ended_elapsed_ms ended.1,
                sym (ap (λ (s : Seen). s.ids) same),
              ),
            ),
          ),
        ),
      )

  pub check_attempts-IsChain :
      (index : ℕ) (attempts : List Attempt) (seen next : Seen)
      → check_attempts clock_available elapsed index attempts seen ≡ ok next
      → IsChain index seen.previous_end seen.ids attempts
        × (next.previous_end ≡ last_end seen.previous_end attempts)
  unfolding check_attempts Passed
  check_attempts-IsChain index [] seen next h =
      (tt, sym (ap (λ (s : Seen). s.previous_end) (ok_injective h)))
  check_attempts-IsChain index (a ∷ rest) seen next h =
      let p =
        went_on (check_attempt clock_available elapsed index (is_empty rest) a seen)
          (check_attempts clock_available elapsed (index + 1) rest) h in
      let q = check_attempt-Passed index (is_empty rest) a seen p.0 p.1 in
      let ih = check_attempts-IsChain (index + 1) rest p.0 next p.2 in
      let tail =
        subst
          (λ previous.
            IsChain (index + 1) previous p.0.ids rest
            × (next.previous_end ≡ last_end previous rest))
          q.1.1.1.1.0 ih in
      (
        (
          q.0,
          (
            q.1.0,
            (
              q.1.1.0,
              (
                λ e. let g = q.1.1.1.0 e in (is_empty_lem rest g.0, g.1),
                subst
                    (λ ids.
                      IsChain (index + 1) (unwrap_or a.ended_elapsed_ms seen.previous_end) ids rest)
                    q.1.1.1.1.1 tail.0,
              ),
            ),
          ),
        ),
        tail.1,
      )
