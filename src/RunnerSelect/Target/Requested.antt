-- ===== src/RunnerSelect/Target/Requested.antt =====
-- From a request to the provenance of its runner, through both halves of
-- controller/src/runner_select.rs.
use policy_witness.Base.{
  Option, none, some, List, [], Bytes, codes, Result, ok, unwrap_or, ◌≡◌, sym, subst, ap, ◌∙◌, inl,
  inr,
}
use policy_witness.Json.{Value, array, object, Fields, lookup, items_of, items_of_injective}
use policy_witness.Evidence.{EvidenceManifest}
use policy_witness.RunnerSelect.{RunnerSelector, RunnerTarget}
use policy_witness.RunnerSelect.Parse.{parse_runner_selector_value}
use policy_witness.RunnerSelect.Parse.Reading.{
  Given, GivesRunner, parse_runner_selector_value-IsReading,
}
use policy_witness.RunnerSelect.Parse.Held.{IsTexts}
use policy_witness.RunnerSelect.Target.{TargetSystem, resolve_runner_target_with_registry}
use policy_witness.RunnerSelect.Target.Admitted.{Grants}
use policy_witness.RunnerSelect.Target.Resolved.{resolve_runner_target-IsFrom}
use policy_witness.RunnerSelect.Target.Provenance.{runner_provenance_from_target}

texts_given :
    (o : Option Value) (t : Option (List Bytes)) (l : List Bytes)
    → IsTexts o t
    → o ≡ some (array (items_of l))
    → t ≡ some l
texts_given o none l (inl e) h = cc
texts_given o none l (inr e) h = cc
texts_given o (some k) l e h =
    let same : items_of k ≡ items_of l = cc in ap some (items_of_injective k l same)

-- Where the `runner` object of a request lists the entitlements that it requires, the runner that
-- is resolved for the request holds them all, and its provenance reports the read-back of the
-- worker that shows it.
pub requested-Grants :
    (sys : TargetSystem) (app_root : Bytes) (loaded : Result EvidenceManifest)
    (override : Option Bytes) (root runner : Fields) (required : List Bytes) (s : RunnerSelector)
    (target : RunnerTarget)
    → lookup (codes "runner") root ≡ some (object runner)
    → lookup (codes "required_entitlements") runner ≡ some (array (items_of required))
    → parse_runner_selector_value sys.debug (object root) ≡ ok s
    → resolve_runner_target_with_registry sys app_root loaded s override ≡ ok target
    → Grants required (runner_provenance_from_target sys.display target).runner_worker_entitlements
unfolding runner_provenance_from_target
requested-Grants sys app_root loaded override root runner required s target at lists parsed
      resolved =
    let read = parse_runner_selector_value-IsReading sys.debug (object root) s parsed in
    let same : root ≡ read.0 = cc (read.1.0) in
    let reading = read.1.1.1.1 in
    let given =
      given_list (lookup (codes "runner") read.0) reading.0
        (subst (λ f. lookup (codes "runner") f ≡ some (object runner)) same at) reading.1.0 in
    let required_lem : s.required_entitlements ≡ required =
      ap (λ (x : RunnerSelector). x.required_entitlements) reading.1.1.0
      ∙ ap (λ (t : Option (List Bytes)). unwrap_or t (unwrap_or read.1.1.0.entitlements []))
          given in
    subst (λ l. Grants l target.worker_entitlements) required_lem
      (resolve_runner_target-IsFrom sys app_root loaded s override target resolved).1.1
  where
    given_list :
        (o : Option Value) (inner : Given)
        → o ≡ some (object runner)
        → GivesRunner o inner
        → inner.entitlements ≡ some required
    given_list o inner e (inl (inl n, k)) = cc
    given_list o inner e (inl (inr n, k)) = cc
    given_list o inner e (inr (found, (p, g))) =
        let f : found ≡ runner = cc in
        texts_given (lookup (codes "required_entitlements") found) inner.entitlements required
          g.1.entitlements_texts
          (subst (λ f. lookup (codes "required_entitlements") f ≡ some (array (items_of required)))
            (sym f) lists)
