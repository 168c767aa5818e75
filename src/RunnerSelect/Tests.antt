-- ===== src/RunnerSelect/Tests.antt =====
-- A request for an external runner that must hold one entitlement, and the theorems at it.
use policy_witness.Base.{
  true, false, none, some, List, [], ◌∷◌, ◌++◌, if◌then◌else◌, Bytes, codes, bytes_eq, any, ok, err,
  ◌≡◌, refl, ◌↔◌, In,
}
use policy_witness.Json.{
  null, string, array, object, field, end, Fields, get, lookup, items_of, boolean,
}
use policy_witness.RunnerManager.{
  byoxpc, user, installed, RunnerSignature, RunnerEntitlements, RunnerRecord,
}
use policy_witness.RunnerManager.Kinds.{entitlements_from_json}
use policy_witness.RunnerSelect.{
  RunnerSelector, RunnerTarget, mach_service, is_external, selector_problem,
}
use policy_witness.RunnerSelect.Parse.{strip_runner_selector, parse_runner_selector_value}
use policy_witness.RunnerSelect.Parse.Reading.{
  Given, Gives, IsReading, parse_runner_selector_value-IsReading,
}
use policy_witness.RunnerSelect.Parse.Strip.{chooser_keys, get-strip_runner_selector}
use policy_witness.RunnerSelect.Target.{
  TargetSystem, enforce_required_entitlements, resolve_runner_target_with_registry,
}
use policy_witness.RunnerSelect.Target.Admitted.{
  Grants, HoldsTrue, enforce_required_entitlements-Grants,
}
use policy_witness.RunnerSelect.Target.Resolved.{IsFrom, resolve_runner_target-IsFrom}
use policy_witness.RunnerSelect.Target.Provenance.{runner_provenance_from_target}
use policy_witness.RunnerSelect.Target.Requested.{requested-Grants}

abbrev jit : List Bytes
jit = codes "jit" ∷ []

abbrev chosen : Fields
chosen =
    field (codes "id") (string (codes "r1"))
      (field (codes "required_entitlements") (array (items_of jit)) end)

abbrev root : Fields
root = field (codes "runner") (object chosen) (field (codes "runner_service") null end)

abbrev selector : RunnerSelector
selector = record {
  runner_id = some (codes "r1");
  runner_service = none;
  required_entitlements = jit;
  mode = none;
}

reads : parse_runner_selector_value (λ t. t) (object root) ≡ ok selector
unfolding parse_runner_selector_value
reads = refl

abbrev signature : RunnerSignature
signature = record { team_id = none; identity = none; cdhash = none; valid = true; adhoc = true }

abbrev entitlements : RunnerEntitlements
entitlements = record { raw_plist = none; keys = jit; granted = jit; error = none }

abbrev runner : RunnerRecord
runner = record {
  state = installed;
  ownership = none;
  id = codes "r1";
  service_name = codes "svc";
  bundle_path = codes "/R.xpc";
  executable_path = codes "/R.xpc/x";
  bundle_id = none;
  scope = user;
  protocol_version = 3;
  signature = signature;
  entitlements = entitlements;
  installed_at_unix_ms = 5;
  kind = none;
  worker_signature = none;
  worker_entitlements = some entitlements;
  unentitled_worker_signature = none;
  unentitled_worker_entitlements = none;
  unentitled_worker_sha256 = none;
  worker_equipment_inventory = none;
  source_worker_equipment_inventory = none;
  validator_signature = none;
  validator_entitlements = none;
  issuer_signature = none;
  issuer_entitlements = none;
}

abbrev system : TargetSystem
system = record {
  path_join = λ a b. a ++ b;
  parent = λ p. none;
  display = λ p. p;
  debug = λ t. t;
  to_string_pretty = λ v. none;
  runner_registry_path = ok (codes "/reg");
  load_registry =
      λ p. ok (record { schema_version = 1; runners = runner ∷ []; pending_cleanup = [] });
}

abbrev target : RunnerTarget
target = record {
  kind = byoxpc;
  connection = mach_service false;
  service_name = codes "svc";
  bundle_id = none;
  bundle_path = some (codes "/R.xpc");
  executable_path = some (codes "/R.xpc/x");
  registry_id = some (codes "r1");
  signature = some signature;
  entitlements = some entitlements;
  worker_signature = none;
  worker_entitlements = some entitlements;
  validator_signature = none;
  validator_entitlements = none;
  unentitled_worker_signature = none;
  unentitled_worker_entitlements = none;
}

resolves :
    resolve_runner_target_with_registry system
      (codes "/app")
      (err (codes "no manifest"))
      selector
      none
    ≡ ok target
unfolding resolve_runner_target_with_registry
resolves = refl

parse_runner_selector_value-IsReading_example :
    (fields : Fields) × ((object root ≡ object fields)
      × ((outer : Given) × (Gives
              (codes "runner_id")
              (codes "runner_service")
              (codes "runner_mode")
              fields
              outer
            × IsReading (λ t. t) (lookup (codes "runner") fields) outer selector)))
parse_runner_selector_value-IsReading_example =
    parse_runner_selector_value-IsReading (λ t. t) (object root) selector reads

get-strip_runner_selector_example : get (codes "policy") (strip_runner_selector (object root)) ≡ (
    if any (λ k. bytes_eq k (codes "policy")) chooser_keys
    then none
    else get (codes "policy") (object root))
get-strip_runner_selector_example = get-strip_runner_selector (codes "policy") (object root)

abbrev dictionary : Fields
dictionary = field (codes "jit") (boolean true) (field (codes "net") (boolean false) end)

enforce_required_entitlements-Grants_example :
    ((enforce_required_entitlements system jit (some entitlements) (codes "external runner")
        ≡ ok tt)
      ↔ Grants jit (some entitlements))
    × (In (codes "net") (entitlements_from_json (object dictionary)).granted
        ↔ HoldsTrue (codes "net") dictionary)
enforce_required_entitlements-Grants_example =
    enforce_required_entitlements-Grants system jit (some entitlements) (codes "external runner")
      (codes "net") dictionary

resolve_runner_target-IsFrom_example :
    (selector_problem selector ≡ none)
    × (IsFrom system
          (codes "/app")
          (err (codes "no manifest"))
          selector
          none
          (is_external selector)
          target
        × Grants jit target.worker_entitlements)
resolve_runner_target-IsFrom_example =
    resolve_runner_target-IsFrom system (codes "/app") (err (codes "no manifest")) selector none
      target resolves

requested-Grants_example :
    Grants jit (runner_provenance_from_target (λ p. p) target).runner_worker_entitlements
unfolding lookup
requested-Grants_example =
    requested-Grants system (codes "/app") (err (codes "no manifest")) none root chosen jit selector
      target refl refl reads resolves
