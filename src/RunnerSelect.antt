-- ===== src/RunnerSelect.antt =====
-- controller/src/runner_select.rs: the runner selector of a request, and its target.
pub mod Parse
pub mod Target
mod Tests
use policy_witness.Base.{
  Bool, ◌||◌, ◌&&◌, not, Option, none, some, List, Bytes, codes, is_some, if◌then◌else◌,
}
use policy_witness.RunnerManager.{RunnerKind, standard, byoxpc, RunnerEntitlements, RunnerSignature}

pub record RunnerSelector : Type 0 where
  pub runner_id : Option Bytes
  pub runner_service : Option Bytes
  pub required_entitlements : List Bytes
  pub mode : Option RunnerKind

pub data RunnerConnectionKind : Type 0 where
  xpc_service : RunnerConnectionKind
  mach_service : Bool → RunnerConnectionKind

pub record RunnerTarget : Type 0 where
  pub kind : RunnerKind
  pub connection : RunnerConnectionKind
  pub service_name : Bytes
  pub bundle_id : Option Bytes
  pub bundle_path : Option Bytes
  pub executable_path : Option Bytes
  pub registry_id : Option Bytes
  pub signature : Option RunnerSignature
  pub entitlements : Option RunnerEntitlements
  pub worker_signature : Option RunnerSignature
  pub worker_entitlements : Option RunnerEntitlements
  pub validator_signature : Option RunnerSignature
  pub validator_entitlements : Option RunnerEntitlements
  pub unentitled_worker_signature : Option RunnerSignature
  pub unentitled_worker_entitlements : Option RunnerEntitlements

pub record RunnerProvenance : Type 0 where
  pub runner_kind : Bytes
  pub runner_registry_id : Option Bytes
  pub runner_service_name : Bytes
  pub runner_bundle_id : Option Bytes
  pub runner_bundle_path : Option Bytes
  pub runner_executable_path : Option Bytes
  pub runner_signature : Option RunnerSignature
  pub runner_entitlements : Option RunnerEntitlements
  pub runner_worker_signature : Option RunnerSignature
  pub runner_worker_entitlements : Option RunnerEntitlements
  pub runner_validator_signature : Option RunnerSignature
  pub runner_validator_entitlements : Option RunnerEntitlements
  pub runner_unentitled_worker_signature : Option RunnerSignature
  pub runner_unentitled_worker_entitlements : Option RunnerEntitlements

-- The selector names an external runner.
abbrev pub is_external : RunnerSelector → Bool
is_external selector = is_some selector.runner_id || is_some selector.runner_service

-- The two tests of `selector_problem`, over the mode.
unfoldable pub mode_problem : Option RunnerKind → Bool → Option Bytes
mode_problem none external = none
mode_problem (some standard) external =
    if external
    then some (codes "runner.mode=standard cannot be combined with an external runner selection")
    else none
mode_problem (some byoxpc) external =
    if not external
    then some (codes "runner.mode requires runner.id or runner.service for external runners")
    else none

unfoldable pub selector_problem : RunnerSelector → Option Bytes
unfolding mode_problem
selector_problem selector = mode_problem selector.mode (is_external selector)
