-- ===== src/RunnerSelect/Target/Provenance.antt =====
-- `runner_provenance_from_target` of controller/src/runner_select.rs, and a target's provenance.
use policy_witness.Base.{Option, none, some, Bytes}
use policy_witness.RunnerManager.Kinds.{kind_text}
use policy_witness.RunnerSelect.{RunnerTarget, RunnerProvenance}

abbrev shown : (Bytes → Bytes) → Option Bytes → Option Bytes
shown display none = none
shown display (some path) = some (display path)

unfoldable pub runner_provenance_from_target : (Bytes → Bytes) → RunnerTarget → RunnerProvenance
unfolding kind_text
runner_provenance_from_target display target = record {
  runner_kind = kind_text target.kind;
  runner_registry_id = target.registry_id;
  runner_service_name = target.service_name;
  runner_bundle_id = target.bundle_id;
  runner_bundle_path = shown display target.bundle_path;
  runner_executable_path = shown display target.executable_path;
  runner_signature = target.signature;
  runner_entitlements = target.entitlements;
  runner_worker_signature = target.worker_signature;
  runner_worker_entitlements = target.worker_entitlements;
  runner_validator_signature = target.validator_signature;
  runner_validator_entitlements = target.validator_entitlements;
  runner_unentitled_worker_signature = target.unentitled_worker_signature;
  runner_unentitled_worker_entitlements = target.unentitled_worker_entitlements;
}
