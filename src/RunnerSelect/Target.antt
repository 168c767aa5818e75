-- ===== src/RunnerSelect/Target.antt =====
-- controller/src/runner_select.rs: from a selector to the runner that it selects.
pub mod Admitted
pub mod Resolved
pub mod Provenance
pub mod Requested
use policy_witness.Base.{
  ℕ, Bool, true, false, not, Option, none, some, List, [], ◌∷◌, ◌++◌, ◌==◌, any, if◌then◌else◌,
  is_empty, is_some, Bytes, codes, bytes_eq, Result, ok, err, ◌>>=◌, map_err, ok_or, unwrap_or,
  ◌&&◌,
}
use policy_witness.Json.{Value}
use policy_witness.Evidence.{
  EvidenceManifest, EvidenceEntry, unique_typed_entry, manifest_path_from_app_root,
}
use policy_witness.RunnerManager.{
  RunnerKind, standard, byoxpc, RunnerScope, user, system, RunnerState, pending, installed,
  RunnerRecord, RunnerRegistry, RunnerEntitlements, find_record,
}
use policy_witness.RunnerManager.Kinds.{kind_text, require_current_protocol, entitlements_from_json}
use policy_witness.RunnerSelect.{
  RunnerSelector, RunnerConnectionKind, xpc_service, mach_service, RunnerTarget, is_external,
  selector_problem,
}

-- The files of controller/src/app_layout.rs that are selected by their paths.
pub record ShippedBinary : Type 0 where
  pub rel_path : Bytes
  pub kind : Bytes

abbrev pub shipped_service : ShippedBinary
shipped_service = record {
  rel_path = codes "Contents/XPCServices/PWRunner.xpc/Contents/MacOS/PWRunner";
  kind = codes "xpc-service";
}

abbrev pub shipped_worker : ShippedBinary
shipped_worker = record {
  rel_path = codes "Contents/XPCServices/PWRunner.xpc/Contents/MacOS/pw-probe-runner";
  kind = codes "xpc-embedded-helper";
}

abbrev pub shipped_validator : ShippedBinary
shipped_validator = record {
  rel_path = codes "Contents/XPCServices/PWRunner.xpc/Contents/MacOS/sb_api_validator";
  kind = codes "xpc-embedded-helper";
}

abbrev pub shipped_unentitled_worker : ShippedBinary
shipped_unentitled_worker = record {
  rel_path = codes "Contents/XPCServices/PWRunner.xpc/Contents/MacOS/pw-probe-runner-unentitled";
  kind = codes "xpc-embedded-helper";
}

-- std's paths and text forms, serde_json's printer, and the registry on disk.
pub record TargetSystem : Type 0 where
  pub path_join : Bytes → Bytes → Bytes
  pub parent : Bytes → Option Bytes
  pub display : Bytes → Bytes
  pub debug : Bytes → Bytes
  pub to_string_pretty : Value → Option Bytes
  pub runner_registry_path : Result Bytes
  pub load_registry : Bytes → Result RunnerRegistry

abbrev pub unread : Option Bytes → RunnerEntitlements
unread error = record { raw_plist = none; keys = []; granted = []; error = error }

abbrev pub infer_record_kind : RunnerRecord → RunnerKind
infer_record_kind r = unwrap_or r.kind byoxpc

abbrev pub same_kind : RunnerKind → RunnerKind → Bool
same_kind standard standard = true
same_kind byoxpc byoxpc = true
same_kind _ _ = false

abbrev pub is_system : RunnerScope → Bool
is_system user = false
is_system system = true

unfoldable pub installed_record : RunnerState → RunnerRecord → Result RunnerRecord
installed_record pending r = err (codes "external runner is pending installation")
installed_record installed r = ok r

unfoldable pub find_external_record : RunnerRegistry → RunnerSelector → Result RunnerRecord
unfolding find_record installed_record
find_external_record registry selector = do
  r ←
      ok_or (find_record registry selector.runner_id selector.runner_service)
        (codes "external runner not found in registry")
  installed_record r.state r

unfoldable pub check_mode : Option RunnerKind → RunnerKind → Result (Unit {0})
unfolding kind_text
check_mode none record_kind = ok tt
check_mode (some mode) record_kind =
    if same_kind mode record_kind
    then ok tt
    else err (
        codes "runner.mode mismatch (requested "
        ++ (kind_text mode ++ (codes ", registry has " ++ (kind_text record_kind ++ codes ")"))))

unfoldable pub connection_of : RunnerKind → RunnerScope → Result RunnerConnectionKind
connection_of byoxpc scope = ok (mach_service (is_system scope))
connection_of standard scope = err (codes "external runners cannot be built-in kinds")

module _ (sys : TargetSystem) where
  unfoldable pub manifest_entitlements : Option Value → RunnerEntitlements
  unfolding entitlements_from_json
  manifest_entitlements none = unread none
  manifest_entitlements (some v) = record (entitlements_from_json v) {
    raw_plist = sys.to_string_pretty v;
  }

  unfoldable pub entitlements_from_manifest_value : Option Value → Option Bytes → RunnerEntitlements
  unfolding manifest_entitlements
  entitlements_from_manifest_value value none = manifest_entitlements value
  entitlements_from_manifest_value value (some error) = record (manifest_entitlements value) {
    error = some error;
  }

  -- The message for a manifest that does not do.
  unfoldable pub unavailable : Bytes → Bytes → Bytes
  unfolding manifest_path_from_app_root
  unavailable app_root error =
      codes "built-in runner unavailable: "
      ++ (sys.display (manifest_path_from_app_root sys.path_join app_root) ++ (codes ": " ++ error))

  -- The bundle id that an entry names, if it can be a name of a service.
  unfoldable pub entry_bundle_id : Bytes → Option Bytes → Result Bytes
  unfolding unavailable any
  entry_bundle_id app_root none = err (
      unavailable app_root (
        codes "evidence manifest entry at "
        ++ (shipped_service.rel_path ++ codes " has no bundle_id")))
  entry_bundle_id app_root (some id) =
      if not (is_empty id) && not (any (λ b. b == 0) id)
      then ok id
      else err (
          unavailable app_root (
            codes "evidence manifest entry at "
            ++ (shipped_service.rel_path ++ codes " has an empty or NUL-containing bundle_id")))

  unfoldable pub helper_of : Bytes → Result EvidenceEntry → RunnerEntitlements
  unfolding entitlements_from_manifest_value unavailable
  helper_of app_root (ok entry) =
      entitlements_from_manifest_value entry.entitlements entry.entitlements_error
  helper_of app_root (err error) = unread (some (unavailable app_root error))

  unfoldable pub helper_entitlements : Bytes → EvidenceManifest → ShippedBinary → RunnerEntitlements
  unfolding helper_of unique_typed_entry
  helper_entitlements app_root manifest role =
      helper_of app_root (unique_typed_entry sys.debug manifest role.rel_path role.kind)

  -- `parent` three times: the bundle that holds the executable.
  abbrev pub parent_of : Option Bytes → Option Bytes
  parent_of none = none
  parent_of (some path) = sys.parent path

  unfoldable pub builtin_runner_target :
      Bytes → Result EvidenceManifest → RunnerKind → Result RunnerTarget
  unfolding unique_typed_entry entry_bundle_id helper_entitlements entitlements_from_manifest_value
      unavailable
  builtin_runner_target app_root loaded byoxpc =
      err (codes "builtin runner target requires a built-in kind")
  builtin_runner_target app_root loaded standard = do
    manifest ← map_err (λ e. codes "built-in runner unavailable: " ++ e) loaded
    entry ←
        map_err (unavailable app_root)
          (unique_typed_entry sys.debug manifest shipped_service.rel_path shipped_service.kind)
    bundle_id ← entry_bundle_id app_root entry.bundle_id
    let executable_path = sys.path_join app_root shipped_service.rel_path
    ok (record {
      kind = standard;
      connection = xpc_service;
      service_name = bundle_id;
      bundle_id = some bundle_id;
      bundle_path = parent_of (parent_of (sys.parent executable_path));
      executable_path = some executable_path;
      registry_id = none;
      signature = none;
      entitlements =
          some (entitlements_from_manifest_value entry.entitlements entry.entitlements_error);
      worker_signature = none;
      worker_entitlements = some (helper_entitlements app_root manifest shipped_worker);
      validator_signature = none;
      validator_entitlements = some (helper_entitlements app_root manifest shipped_validator);
      unentitled_worker_signature = none;
      unentitled_worker_entitlements =
          some (helper_entitlements app_root manifest shipped_unentitled_worker);
    })

  -- The loop of `enforce_required_entitlements`.
  unfoldable pub check_granted : Bytes → RunnerEntitlements → List Bytes → Result (Unit {0})
  unfolding any bytes_eq
  check_granted subject worker [] = ok tt
  check_granted subject worker (key ∷ required) =
      let rest = check_granted subject worker required in
      let state =
        if any (λ k. bytes_eq k key) worker.keys
        then codes "present with a value other than true"
        else codes "absent" in
      if any (λ k. bytes_eq k key) worker.granted
      then rest
      else err (
          subject
          ++ (codes " worker does not hold required entitlement "
              ++ (sys.debug key ++ (codes ": " ++ state))))

  unfoldable pub check_worker :
      Bytes → List Bytes → RunnerEntitlements → Option Bytes → Result (Unit {0})
  unfolding check_granted
  check_worker subject required worker none = check_granted subject worker required
  check_worker subject required worker (some error) =
      err (subject ++ (codes " worker entitlements unavailable: " ++ error))

  unfoldable pub enforce_required_entitlements :
      List Bytes → Option RunnerEntitlements → Bytes → Result (Unit {0})
  unfolding check_worker
  enforce_required_entitlements [] worker subject = ok tt
  enforce_required_entitlements required none subject = err (
      subject
      ++ codes
          " has no worker entitlement read-back; reinstall it with this policy-witness so selection can check the worker")
  enforce_required_entitlements required (some worker) subject =
      check_worker subject required worker worker.error

  unfoldable pub resolve_external_target : RunnerRecord → RunnerSelector → Result RunnerTarget
  unfolding require_current_protocol check_mode enforce_required_entitlements connection_of
  resolve_external_target r selector = do
    current ← require_current_protocol r.protocol_version
    agreed ← check_mode selector.mode (infer_record_kind r)
    granted ←
        enforce_required_entitlements selector.required_entitlements r.worker_entitlements
          (codes "external runner")
    connection ← connection_of (infer_record_kind r) r.scope
    ok (record {
      kind = infer_record_kind r;
      connection = connection;
      service_name = r.service_name;
      bundle_id = r.bundle_id;
      bundle_path = some r.bundle_path;
      executable_path = some r.executable_path;
      registry_id = some r.id;
      signature = some r.signature;
      entitlements = some r.entitlements;
      worker_signature = r.worker_signature;
      worker_entitlements = r.worker_entitlements;
      validator_signature = r.validator_signature;
      validator_entitlements = r.validator_entitlements;
      unentitled_worker_signature = r.unentitled_worker_signature;
      unentitled_worker_entitlements = r.unentitled_worker_entitlements;
    })

  unfoldable pub resolve_builtin :
      Bytes → Result EvidenceManifest → RunnerSelector → Result RunnerTarget
  unfolding builtin_runner_target enforce_required_entitlements
  resolve_builtin app_root manifest selector = do
    target ← builtin_runner_target app_root manifest (unwrap_or selector.mode standard)
    granted ←
        enforce_required_entitlements selector.required_entitlements target.worker_entitlements
          (codes "built-in runner")
    ok target

  unfoldable pub registry_location : Option Bytes → Result Bytes
  registry_location none = sys.runner_registry_path
  registry_location (some path) = ok path

  unfoldable pub resolve_external : RunnerSelector → Option Bytes → Result RunnerTarget
  unfolding registry_location find_external_record resolve_external_target
  resolve_external selector registry_path_override = do
    registry_path ← registry_location registry_path_override
    registry ← sys.load_registry registry_path
    r ← find_external_record registry selector
    resolve_external_target r selector

  -- The selector's own problem, if it has one, comes first.
  unfoldable pub resolve_checked :
      Bytes
      → Result EvidenceManifest
      → RunnerSelector
      → Option Bytes
      → Option Bytes
      → Result RunnerTarget
  unfolding resolve_builtin resolve_external
  resolve_checked app_root manifest selector registry_path_override (some problem) = err problem
  resolve_checked app_root manifest selector registry_path_override none =
      if not (is_external selector)
      then resolve_builtin app_root manifest selector
      else resolve_external selector registry_path_override

  unfoldable pub resolve_runner_target_with_registry :
      Bytes → Result EvidenceManifest → RunnerSelector → Option Bytes → Result RunnerTarget
  unfolding selector_problem resolve_checked
  resolve_runner_target_with_registry app_root manifest selector registry_path_override =
      resolve_checked app_root manifest selector registry_path_override (selector_problem selector)
