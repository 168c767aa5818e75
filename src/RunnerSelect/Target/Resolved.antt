-- ===== src/RunnerSelect/Target/Resolved.antt =====
-- What `resolve_runner_target_with_registry` of controller/src/runner_select.rs resolves to.
use policy_witness.Base.{
  ℕ, Bool, true, false, not, Option, none, some, if◌then◌else◌, Bytes, codes, Result, ok, err,
  went_on, map_err, ok_or, ok_injective, unwrap_or, ◌≡◌, refl, sym, subst, ap, ◌⊎◌, inl, inr, arith,
  ◌++◌,
}
use policy_witness.Evidence.{EvidenceManifest, EvidenceEntry, unique_typed_entry}
use policy_witness.Evidence.Entries.{IsOnly, unique_typed_entry-IsOnly}
use policy_witness.RunnerManager.{
  RunnerKind, standard, byoxpc, RunnerScope, RunnerState, pending, installed, RunnerRecord,
  RunnerRegistry, find_record,
}
use policy_witness.RunnerManager.Kinds.{require_current_protocol}
use policy_witness.RunnerSelect.{
  RunnerSelector, RunnerConnectionKind, xpc_service, mach_service, RunnerTarget, is_external,
  selector_problem,
}
use policy_witness.RunnerSelect.Target.{
  TargetSystem, shipped_service, shipped_worker, infer_record_kind, is_system, entry_bundle_id,
  unavailable, helper_entitlements, builtin_runner_target, enforce_required_entitlements,
  installed_record, find_external_record, check_mode, connection_of, resolve_external_target,
  resolve_builtin, registry_location, resolve_external, resolve_checked,
  resolve_runner_target_with_registry,
}
use policy_witness.RunnerSelect.Target.Admitted.{Grants, enforce_required-Grants}

-- The target is that record: installed, of the current protocol, external, of the mode asked for.
pub record IsRecord (selector : RunnerSelector) (r : RunnerRecord) (target : RunnerTarget)
    : Type 0 where
  pub is_installed : r.state ≡ installed
  pub is_current : r.protocol_version ≡ 3
  pub is_byoxpc : infer_record_kind r ≡ byoxpc
  pub is_mode : (selector.mode ≡ none) ⊎ (selector.mode ≡ some byoxpc)
  pub id : target.registry_id ≡ some r.id
  pub service_name : target.service_name ≡ r.service_name
  pub connection : target.connection ≡ mach_service (is_system r.scope)
  pub executable_path : target.executable_path ≡ some r.executable_path
  pub worker : target.worker_entitlements ≡ r.worker_entitlements

-- The target is the shipped service, by the only entry at its path.
pub record IsShipped (sys : TargetSystem) (app_root : Bytes) (manifest : EvidenceManifest)
    (entry : EvidenceEntry) (target : RunnerTarget) : Type 0 where
  pub only : IsOnly manifest shipped_service.rel_path shipped_service.kind entry
  pub bundle_id : entry.bundle_id ≡ some target.service_name
  pub is_standard : target.kind ≡ standard
  pub connection : target.connection ≡ xpc_service
  pub unregistered : target.registry_id ≡ none
  pub worker :
      target.worker_entitlements ≡ some (helper_entitlements sys app_root manifest shipped_worker)

module _ (sys : TargetSystem) where
  entry_bundle_id_same :
      (app_root : Bytes) (o : Option Bytes) (id : Bytes)
      → entry_bundle_id sys app_root o ≡ ok id
      → o ≡ some id
  unfolding entry_bundle_id
  entry_bundle_id_same app_root none id h = cc
  entry_bundle_id_same app_root (some b) id h = ground arith

  map_err_same :
      (f : Bytes → Bytes) {A : Type 0} (r : Result A) (a : A) → map_err f r ≡ ok a → r ≡ ok a
  map_err_same f (ok b) a h = h
  map_err_same f (err e) a h = cc

  builtin-IsShipped :
      (app_root : Bytes) (loaded : Result EvidenceManifest) (kind : RunnerKind)
      (target : RunnerTarget)
      → builtin_runner_target sys app_root loaded kind ≡ ok target
      → (manifest : EvidenceManifest) × ((entry : EvidenceEntry) × ((loaded ≡ ok manifest)
            × IsShipped sys app_root manifest entry target))
  unfolding builtin_runner_target
  builtin-IsShipped app_root loaded byoxpc target h = cc
  builtin-IsShipped app_root loaded standard target h =
      let one = went_on (map_err (λ e. codes "built-in runner unavailable: " ++ e) loaded) _ h in
      let manifest = one.0 in
      let two =
        went_on
          (map_err (unavailable sys app_root)
            (unique_typed_entry sys.debug manifest shipped_service.rel_path shipped_service.kind))
          _ one.2 in
      let three = went_on (entry_bundle_id sys app_root two.0.bundle_id) _ two.2 in
      let found = map_err_same (unavailable sys app_root) _ two.0 two.1 in
      (
        manifest,
        (
          two.0,
          (
            map_err_same (λ e. codes "built-in runner unavailable: " ++ e) loaded manifest one.1,
            subst (IsShipped sys app_root manifest two.0) (ok_injective three.2) (record {
              only =
                  (unique_typed_entry-IsOnly sys.debug manifest shipped_service.rel_path
                      shipped_service.kind two.0).0
                    found;
              bundle_id = entry_bundle_id_same app_root two.0.bundle_id three.0 three.1;
              is_standard = refl;
              connection = refl;
              unregistered = refl;
              worker = refl;
            }),
          ),
        ),
      )

  current_lem : (n : ℕ) → require_current_protocol n ≡ ok tt → n ≡ 3
  unfolding require_current_protocol
  current_lem n h = ground arith

  installed_parts :
      (state : RunnerState) (r s : RunnerRecord)
      → installed_record state r ≡ ok s
      → (state ≡ installed) × (r ≡ s)
  unfolding installed_record
  installed_parts pending r s h = cc
  installed_parts installed r s h = (refl, ok_injective h)

  ok_or_same : {A : Type 0} (o : Option A) (e : Bytes) (a : A) → ok_or o e ≡ ok a → o ≡ some a
  ok_or_same none e a h = cc
  ok_or_same (some b) e a h = ap some (ok_injective h)

  find_external-parts :
      (registry : RunnerRegistry) (selector : RunnerSelector) (r : RunnerRecord)
      → find_external_record registry selector ≡ ok r
      → (find_record registry selector.runner_id selector.runner_service ≡ some r)
        × (r.state ≡ installed)
  unfolding find_external_record
  find_external-parts registry selector r h =
      let found = find_record registry selector.runner_id selector.runner_service in
      let one = went_on (ok_or found (codes "external runner not found in registry")) _ h in
      let two = installed_parts one.0.state one.0 r one.2 in
      (
        subst (λ x. found ≡ some x) two.1 (ok_or_same found _ one.0 one.1),
        subst (λ x. x.state ≡ installed) two.1 two.0,
      )

  mode_agrees :
      (mode : Option RunnerKind) (kind : RunnerKind)
      → check_mode mode kind ≡ ok tt
      → kind ≡ byoxpc
      → (mode ≡ none) ⊎ (mode ≡ some byoxpc)
  unfolding check_mode
  mode_agrees none kind h e = inl refl
  mode_agrees (some byoxpc) kind h e = inr refl
  mode_agrees (some standard) standard h e = cc
  mode_agrees (some standard) byoxpc h e = cc

  connection_parts :
      (kind : RunnerKind) (scope : RunnerScope) (c : RunnerConnectionKind)
      → connection_of kind scope ≡ ok c
      → (kind ≡ byoxpc) × (mach_service (is_system scope) ≡ c)
  unfolding connection_of
  connection_parts byoxpc scope c h = (refl, ok_injective h)
  connection_parts standard scope c h = cc

  external-IsRecord :
      (r : RunnerRecord) (selector : RunnerSelector) (target : RunnerTarget)
      → r.state ≡ installed
      → resolve_external_target sys r selector ≡ ok target
      → IsRecord selector r target
        × Grants selector.required_entitlements target.worker_entitlements
  unfolding resolve_external_target
  external-IsRecord r selector target state h =
      let subject = codes "external runner" in
      let current = went_on (require_current_protocol r.protocol_version) _ h in
      let agreed = went_on (check_mode selector.mode (infer_record_kind r)) _ current.2 in
      let granted =
        went_on
          (enforce_required_entitlements sys selector.required_entitlements r.worker_entitlements
            subject)
          _ agreed.2 in
      let connection = went_on (connection_of (infer_record_kind r) r.scope) _ granted.2 in
      let kind = connection_parts (infer_record_kind r) r.scope connection.0 connection.1 in
      subst
        (λ t. IsRecord selector r t × Grants selector.required_entitlements t.worker_entitlements)
        (ok_injective connection.2)
        (
          record {
            is_installed = state;
            is_current = current_lem r.protocol_version current.1;
            is_byoxpc = kind.0;
            is_mode = mode_agrees selector.mode (infer_record_kind r) agreed.1 kind.0;
            id = refl;
            service_name = refl;
            connection = sym kind.1;
            executable_path = refl;
            worker = refl;
          },
          (enforce_required-Grants sys selector.required_entitlements r.worker_entitlements
                subject).0
              granted.1,
        )

  -- Where a target comes from, by whether the selector names an external runner.
  abbrev pub IsFrom :
      Bytes → Result EvidenceManifest → RunnerSelector → Option Bytes → Bool → RunnerTarget → Type 0
  IsFrom app_root loaded selector override false target =
      (manifest : EvidenceManifest) × ((entry : EvidenceEntry) × ((loaded ≡ ok manifest)
          × IsShipped sys app_root manifest entry target))
  IsFrom app_root loaded selector override true target =
      (registry : RunnerRegistry) × ((path : Bytes) × ((sys.load_registry path ≡ ok registry)
          × ((registry_location sys override ≡ ok path)
              × ((r : RunnerRecord) × ((find_record registry selector.runner_id
                        selector.runner_service
                      ≡ some r)
                    × IsRecord selector r target)))))

  builtin-IsFrom :
      (app_root : Bytes) (loaded : Result EvidenceManifest) (selector : RunnerSelector)
      (override : Option Bytes) (target : RunnerTarget)
      → resolve_builtin sys app_root loaded selector ≡ ok target
      → IsFrom app_root loaded selector override false target
        × Grants selector.required_entitlements target.worker_entitlements
  unfolding resolve_builtin
  builtin-IsFrom app_root loaded selector override target h =
      let kind = unwrap_or selector.mode standard in
      let built = went_on (builtin_runner_target sys app_root loaded kind) _ h in
      let granted =
        went_on
          (enforce_required_entitlements sys selector.required_entitlements
            built.0.worker_entitlements (codes "built-in runner"))
          _ built.2 in
      subst
        (λ t.
          IsFrom app_root loaded selector override false t
          × Grants selector.required_entitlements t.worker_entitlements)
        (ok_injective granted.2)
        (
          builtin-IsShipped app_root loaded kind built.0 built.1,
          (enforce_required-Grants sys selector.required_entitlements built.0.worker_entitlements
                (codes "built-in runner")).0
              granted.1,
        )

  external-IsFrom :
      (app_root : Bytes) (loaded : Result EvidenceManifest) (selector : RunnerSelector)
      (override : Option Bytes) (target : RunnerTarget)
      → resolve_external sys selector override ≡ ok target
      → IsFrom app_root loaded selector override true target
        × Grants selector.required_entitlements target.worker_entitlements
  unfolding resolve_external
  external-IsFrom app_root loaded selector override target h =
      let path = went_on (registry_location sys override) _ h in
      let registry = went_on (sys.load_registry path.0) _ path.2 in
      let r = went_on (find_external_record registry.0 selector) _ registry.2 in
      let found = find_external-parts registry.0 selector r.0 r.1 in
      let target = external-IsRecord r.0 selector target found.1 r.2 in
      ((registry.0, (path.0, (registry.1, (path.1, (r.0, (found.0, target.0)))))), target.1)

  resolve_checked-IsFrom :
      (app_root : Bytes) (loaded : Result EvidenceManifest) (selector : RunnerSelector)
      (override problem : Option Bytes) (target : RunnerTarget)
      → resolve_checked sys app_root loaded selector override problem ≡ ok target
      → (problem ≡ none)
        × (IsFrom app_root loaded selector override (is_external selector) target
            × Grants selector.required_entitlements target.worker_entitlements)
  unfolding resolve_checked
  resolve_checked-IsFrom app_root loaded selector override (some problem) target h = cc
  resolve_checked-IsFrom app_root loaded selector override none target h =
      (refl, go (is_external selector) h)
    where
      go :
          (b : Bool)
          → (if not b
              then resolve_builtin sys app_root loaded selector
              else resolve_external sys selector override)
            ≡ ok target
          → IsFrom app_root loaded selector override b target
            × Grants selector.required_entitlements target.worker_entitlements
      go false h = builtin-IsFrom app_root loaded selector override target h
      go true h = external-IsFrom app_root loaded selector override target h

  -- A runner that the selector resolves to holds every entitlement that the selector requires: the
  -- read-back of its worker has no error and grants them all. Without an id and a service it is the
  -- shipped runner, by the one manifest entry at the fixed path, whose bundle id names the service;
  -- with either it is the record that the registry finds for them, installed, of the current
  -- protocol and of the mode asked for, and its worker is the one whose read-back counted. A
  -- selector whose fields conflict resolves to none.
  pub resolve_runner_target-IsFrom :
      (app_root : Bytes) (loaded : Result EvidenceManifest) (selector : RunnerSelector)
      (override : Option Bytes) (target : RunnerTarget)
      → resolve_runner_target_with_registry sys app_root loaded selector override ≡ ok target
      → (selector_problem selector ≡ none)
        × (IsFrom app_root loaded selector override (is_external selector) target
            × Grants selector.required_entitlements target.worker_entitlements)
  unfolding resolve_runner_target_with_registry
  resolve_runner_target-IsFrom app_root loaded selector override target h =
      resolve_checked-IsFrom app_root loaded selector override (selector_problem selector) target h
