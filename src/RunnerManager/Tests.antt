-- ===== src/RunnerManager/Tests.antt =====
-- Removals in a small world, where the service and its plist are there or not, and the theorems at
-- them.
use policy_witness.Base.{
  if◌then◌else◌, Bool, true, false, none, some, [], ◌∷◌, codes, ◌≡◌, refl, inl, ok, ◌⊎◌,
}
use policy_witness.Json.{Value, boolean, string, array, object, item, nil, field, end}
use policy_witness.RunnerManager.{
  byoxpc, user, installed, RunnerSignature, RunnerEntitlements, RunnerRecord, present, absent,
  ServiceObservation, PlistObservation, RunnerRegistry, is_present,
}
use policy_witness.RunnerManager.Cleanup.{
  CleanupSystem, CleanupReport, Stage, remove_record, service_after_bootout, chooses,
}
use policy_witness.RunnerManager.Authority.{Allowed, remove_record-Allowed}
use policy_witness.RunnerManager.Retention.{Held, Confirmed, remove_record-Held}
use policy_witness.RunnerManager.Report.{IsSettled, remove_record-IsSettled}
use policy_witness.RunnerManager.Install.{
  InstallSystem, Course, install_record, install_record-Course,
}
use policy_witness.RunnerManager.Teardown.{IsCounted, Polls, service_after_bootout-waits}

abbrev signature : RunnerSignature
signature = record { team_id = none; identity = none; cdhash = none; valid = true; adhoc = true }

abbrev entitlements : RunnerEntitlements
entitlements = record { raw_plist = none; keys = []; granted = []; error = none }

abbrev runner : RunnerRecord
runner = record {
  state = installed;
  ownership = none;
  id = codes "r1";
  service_name = codes "svc";
  bundle_path = codes "/R.xpc";
  executable_path = codes "/R.xpc/x";
  bundle_id = none;
  scope = user;
  protocol_version = 1;
  signature = signature;
  entitlements = entitlements;
  installed_at_unix_ms = 5;
  kind = some byoxpc;
  worker_signature = none;
  worker_entitlements = none;
  unentitled_worker_signature = none;
  unentitled_worker_entitlements = none;
  unentitled_worker_sha256 = none;
  worker_equipment_inventory = none;
  source_worker_equipment_inventory = none;
  validator_signature = none;
  validator_entitlements = none;
  issuer_signature = none;
  issuer_entitlements = none;
}

abbrev config : Value
config = object (
    field (codes "Label") (string (codes "svc")) (
      field (codes "ProgramArguments")
        (array (
          item (string (codes "/R.xpc/x"))
            (item (string (codes "--mach-service")) (item (string (codes "svc")) nil))))
        (field (codes "MachServices") (object (field (codes "svc") (boolean true) end)) (
          field (codes "EnvironmentVariables")
            (object (field (codes "XPC_SERVICE_PATH") (string (codes "/R.xpc")) end)) end))))

-- Whether the service runs, and whether the plist is there.
abbrev World : Type 0
World = Bool × Bool

abbrev look_service : Bool → ServiceObservation
look_service true = record {
  presence = present;
  executable_path = some (codes "/R.xpc/x");
  error = none;
}
look_service false = record { presence = absent; executable_path = none; error = none }

abbrev look_plist : Bool → PlistObservation
look_plist true = record {
  presence = present;
  config = some config;
  sha256 = none;
  owner_uid = some 501;
  regular = true;
  error = none;
}
look_plist false = record {
  presence = absent;
  config = none;
  sha256 = none;
  owner_uid = none;
  regular = false;
  error = none;
}

abbrev machine : CleanupSystem World
machine = record {
  location = λ r w. (ok (codes "/L/svc.plist", codes "gui/501"), w);
  service = λ d n w. (look_service w.0, w);
  plist = λ p w. (look_plist w.1, w);
  bootout = λ d n w. (none, (false, w.1));
  remove_plist = λ p w. (none, (w.0, false));
  wait = λ ms w. w;
  save_registry = λ r w. (none, w);
  now_unix_ms = λ w. (7, w);
  display = λ p. p;
}

abbrev registry : RunnerRegistry
registry = record { schema_version = 1; runners = runner ∷ []; pending_cleanup = [] }

abbrev report : CleanupReport
report = record {
  runner_id = codes "r1";
  service_name = codes "svc";
  plist_path = codes "/L/svc.plist";
  booted_out = true;
  plist_removed = true;
  cleanup_retained = false;
  retained_record = none;
  warnings = [];
}

removes :
    (remove_record machine registry (some (codes "r1")) none false ((true, true), [])).0.0
    ≡ ok (some report)
unfolding remove_record
removes = refl

remove_record-IsSettled_example :
    IsSettled report
      (remove_record machine registry (some (codes "r1")) none false ((true, true), []))
remove_record-IsSettled_example =
    remove_record-IsSettled machine registry (some (codes "r1")) none false ((true, true), [])
      report removes refl

remove_record-Allowed_example :
    (let end = remove_record machine registry (some (codes "r1")) none false ((true, true), []) in
      Allowed (chooses (some (codes "r1")) none) registry end.0 end.1.1)
remove_record-Allowed_example =
    remove_record-Allowed machine registry (some (codes "r1")) none false (true, true)

remove_record-Held_example :
    (let end = remove_record machine registry (some (codes "r1")) none true ((true, true), []) in
      Held runner end.0.1 ⊎ Confirmed runner end.1.1)
remove_record-Held_example =
    remove_record-Held machine registry (some (codes "r1")) none true ((true, true), []) runner
      (inl (inl refl))

abbrev both_there : Stage World
both_there = ((true, true), [])

service_after_bootout-waits_example :
    (let end = service_after_bootout machine runner (codes "gui/501") true both_there in
      (IsCounted end.0
        × Polls machine runner (codes "gui/501") both_there end.0.reads end.0.observation end.1)
      × (is_present end.0.observation.presence ≡ true → end.0.waited_ms ≡ 1000))
service_after_bootout-waits_example =
    service_after_bootout-waits machine runner (codes "gui/501") both_there

-- An installation whose second save fails.
abbrev installer : InstallSystem Bool
installer = record {
  save_registry = λ r w. (if w then some (codes "disk full") else none, w);
  install = λ w. (none, true);
  path_text = codes "/registry.json";
}

install_record-Course_example :
    Course installer registry runner [] (install_record installer registry runner (false, []))
install_record-Course_example = install_record-Course installer registry runner (false, [])
