-- ===== src/RunnerManager/Cleanup.antt =====
-- `remove_record` of controller/src/runner_manager.rs: the removal of an installed runner, over the
-- observations and actions of `CleanupSystem`. A call of the system takes the world and gives a new
-- one. The log beside the world says which calls were made, the latest first; no decision reads it.
use policy_witness.Base.{
  ℕ, zero, suc, ◌+◌, Bool, true, false, not, ◌&&◌, Option, none, some, List, [], ◌∷◌, ◌++◌, ltb,
  if◌then◌else◌, Bytes, codes, bytes_eq, Result, ok, err, is_some, is_empty,
}
use policy_witness.RunnerManager.{
  RunnerRecord, RunnerOwnership, RunnerRegistry, PendingCleanup, CleanupObservation, before, after,
  ServiceObservation, PlistObservation, Ownership, owned, unowned, ambiguous, unsure, Split,
  position, is_absent, is_present, is_owned, plist_ownership, service_ownership, cleanup_complete,
  is_text,
}

pub data Event : Type 0 where
  saved : RunnerRegistry → Bool → Event
  located : RunnerRecord → Result (Bytes × Bytes) → Event
  saw_service : Bytes → Bytes → ServiceObservation → Event
  saw_plist : Bytes → PlistObservation → Event
  booted : Bytes → Bytes → Event
  unlinked : Bytes → Event
  waited : ℕ → Event

-- `CleanupSystem`, `save_registry`, the clock and `Path::display`, over a world that they change.
pub record CleanupSystem (W : Type 0) : Type 0 where
  pub location : RunnerRecord → W → Result (Bytes × Bytes) × W
  pub service : Bytes → Bytes → W → ServiceObservation × W
  pub plist : Bytes → W → PlistObservation × W
  pub bootout : Bytes → Bytes → W → Option Bytes × W
  pub remove_plist : Bytes → W → Option Bytes × W
  pub wait : ℕ → W → W
  pub save_registry : RunnerRegistry → W → Option Bytes × W
  pub now_unix_ms : W → ℕ × W
  pub display : Bytes → Bytes

abbrev pub teardown_wait_ms : ℕ
teardown_wait_ms = 1000

abbrev pub teardown_poll_interval_ms : ℕ
teardown_poll_interval_ms = 50

pub record CleanupReport : Type 0 where
  pub runner_id : Bytes
  pub service_name : Bytes
  pub plist_path : Bytes
  pub booted_out : Bool
  pub plist_removed : Bool
  pub cleanup_retained : Bool
  pub retained_record : Option PendingCleanup
  pub warnings : List Bytes

-- What the middle part of `remove_record` has gathered.
pub record Progress : Type 0 where
  pub observations : List CleanupObservation
  pub warnings : List Bytes
  pub booted_out : Bool
  pub plist_removed : Bool
  pub complete : Bool
  pub plist_path_text : Bytes

-- The `{:?}` form of an ownership.
abbrev pub ownership_text : Ownership → Bytes
ownership_text owned = codes "Owned"
ownership_text unowned = codes "Unowned"
ownership_text ambiguous = codes "Ambiguous"
ownership_text unsure = codes "Unknown"

abbrev pub Stage : Type 0 → Type 0
Stage W = W × List Event

module _ {W : Type 0} where
  -- A call of the system, with its entry in the log.
  abbrev pub call : {A : Type 0} → (W → A × W) → (A → Event) → Stage W → A × Stage W
  call f e s = let r = f s.0 in (r.0, (r.1, e r.0 ∷ s.1))

module _ {W : Type 0} (sys : CleanupSystem W) where
  abbrev pub save : RunnerRegistry → Stage W → Option Bytes × Stage W
  save registry = call (sys.save_registry registry) (λ e. saved registry (not (is_some e)))

  abbrev pub see_service : Bytes → Bytes → Stage W → ServiceObservation × Stage W
  see_service domain name = call (sys.service domain name) (saw_service domain name)

  abbrev pub see_plist : Bytes → Stage W → PlistObservation × Stage W
  see_plist path = call (sys.plist path) (saw_plist path)

  abbrev pub boot_out : Bytes → Bytes → Stage W → Option Bytes × Stage W
  boot_out domain name = call (sys.bootout domain name) (λ e. booted domain name)

  abbrev pub unlink : Bytes → Stage W → Option Bytes × Stage W
  unlink path = call (sys.remove_plist path) (λ e. unlinked path)

  abbrev pub pause : Stage W → Stage W
  pause s = (sys.wait teardown_poll_interval_ms s.0, waited teardown_poll_interval_ms ∷ s.1)

-- The last sight of the service, the reads made and the time waited.
pub record Teardown : Type 0 where
  pub observation : ServiceObservation
  pub reads : ℕ
  pub waited_ms : ℕ

abbrev pub unconfirmed : Bytes
unconfirmed = codes "service/plist absence is not confirmed; cleanup record retained"

abbrev pub persistence_warning : Option Bytes → List Bytes
persistence_warning none = []
persistence_warning (some error) =
    (codes "cleanup persistence failed; prior recovery record retained: " ++ error) ∷ []

-- What an action answered: whether it was done, and the warnings.
pub record Outcome : Type 0 where
  pub done : Bool
  pub warnings : List Bytes

abbrev pub settle : (Bytes → Bytes) → Option Bytes → Outcome
settle wording none = record { done = true; warnings = [] }
settle wording (some error) = record { done = false; warnings = wording error ∷ [] }

abbrev pub refused : Bytes → Outcome
refused warning = record { done = false; warnings = warning ∷ [] }

abbrev pub idle : Outcome
idle = record { done = false; warnings = [] }

module _ {W : Type 0} (sys : CleanupSystem W) (r : RunnerRecord) where
  -- The loop of `service_after_bootout`, on fuel.
  unfoldable pub teardown_loop : ℕ → Bytes → Teardown → Stage W → Teardown × Stage W
  teardown_loop zero domain t s = (t, s)
  teardown_loop (suc fuel) domain t s =
      let seen = see_service sys domain r.service_name (pause sys s) in
      let next : Teardown = record {
        observation = seen.0;
        reads = t.reads + 1;
        waited_ms = t.waited_ms + teardown_poll_interval_ms;
      } in
      let later = teardown_loop fuel domain next seen.1 in
      if is_present t.observation.presence && ltb t.waited_ms teardown_wait_ms
      then later
      else (t, s)

  unfoldable pub service_after_bootout : Bytes → Bool → Stage W → Teardown × Stage W
  unfolding teardown_loop
  service_after_bootout domain booted_out s =
      let seen = see_service sys domain r.service_name s in
      let start : Teardown = record { observation = seen.0; reads = 1; waited_ms = 0 } in
      if booted_out then teardown_loop 20 domain start seen.1 else (start, seen.1)

  -- The bootout of a service that is there, unless the caller asks to skip it.
  unfoldable pub bootout_step : Bool → Bytes → ServiceObservation → Stage W → Outcome × Stage W
  unfolding service_ownership
  bootout_step skip_bootout domain service s =
      let answer = boot_out sys domain r.service_name s in
      let refusal =
        codes "service ownership is "
        ++ (ownership_text (service_ownership r service) ++ codes "; bootout refused") in
      if not (is_absent service.presence) && not skip_bootout
      then (if is_owned (service_ownership r service)
          then (settle (λ e. e) answer.0, answer.1)
          else (refused refusal, s))
      else (idle, s)

  -- The file is inspected again right before it is unlinked.
  unfoldable pub unlink_inspected : Bytes → Stage W → Outcome × Stage W
  unfolding plist_ownership
  unlink_inspected path s =
      let current = see_plist sys path s in
      let answer = unlink sys path current.1 in
      let wording : Bytes → Bytes =
        λ e. codes "failed to remove plist " ++ (sys.display path ++ (codes ": " ++ e)) in
      if is_owned (plist_ownership r current.0)
      then (settle wording answer.0, answer.1)
      else (refused (codes "plist ownership changed; removal refused"), current.1)

  unfoldable pub unlink_step : Bytes → PlistObservation → Stage W → Outcome × Stage W
  unfolding plist_ownership unlink_inspected
  unlink_step path plist s =
      let refusal =
        codes "plist ownership is "
        ++ (ownership_text (plist_ownership r plist) ++ codes "; removal refused") in
      if not (is_absent plist.presence)
      then (if is_owned (plist_ownership r plist)
          then unlink_inspected path s
          else (refused refusal, s))
      else (idle, s)

  -- The `Ok` arm of `match system.location(record)`.
  unfoldable pub tear_down : Bytes → Bytes → Bool → Stage W → Progress × Stage W
  unfolding bootout_step unlink_step service_after_bootout cleanup_complete
  tear_down path domain skip_bootout s =
      let service = see_service sys domain r.service_name s in
      let plist = see_plist sys path service.1 in
      let boot = bootout_step skip_bootout domain service.0 plist.1 in
      let gone = unlink_step path plist.0 boot.1 in
      let last = service_after_bootout domain boot.0.done gone.1 in
      let plist_after = see_plist sys path last.1 in
      let warned = boot.0.warnings ++ gone.0.warnings in
      let complete = cleanup_complete last.0.observation plist_after.0 && is_empty warned in
      (
        record {
          observations =
              before service.0 plist.0 (service_ownership r service.0) (plist_ownership r plist.0)
              ∷ (after last.0.observation plist_after.0 last.0.reads last.0.waited_ms ∷ []);
          warnings = if complete then warned else warned ++ (unconfirmed ∷ []);
          booted_out = boot.0.done;
          plist_removed = gone.0.done;
          complete = complete;
          plist_path_text = sys.display path;
        },
        plist_after.1,
      )

-- The arguments that choose a runner, by its id or else by its service name.
abbrev pub chooses : Option Bytes → Option Bytes → RunnerRecord → Bool
chooses none service_name r = is_text service_name r.service_name
chooses (some id) service_name r = bytes_eq id r.id

abbrev pub plist_path_of : Option RunnerOwnership → Bytes
plist_path_of none = []
plist_path_of (some o) = o.plist_path

module _ {W : Type 0} (sys : CleanupSystem W) where
  -- The runner found leaves `runners` for `pending_cleanup`, and the registry is saved.
  unfoldable pub journal :
      RunnerRegistry
      → Option (Split RunnerRecord)
      → Stage W
      → (Option Bytes × RunnerRegistry) × Stage W
  journal registry none s = ((none, registry), s)
  journal registry (some found) s =
      let time = sys.now_unix_ms s.0 in
      let cleanup : PendingCleanup = record {
        runner = found.here;
        cleanup_started_at_unix_ms = time.0;
        observations = [];
      } in
      let moved = record registry {
        runners = found.front ++ found.rest;
        pending_cleanup = registry.pending_cleanup ++ (cleanup ∷ []);
      } in
      let answer = save sys moved (time.1, s.1) in ((answer.0, moved), answer.1)

  -- `match system.location(record)`.
  unfoldable pub attempt_at :
      RunnerRecord → Bool → Result (Bytes × Bytes) → Stage W → Progress × Stage W
  unfolding tear_down
  attempt_at r skip_bootout (err error) s = (
    record {
      observations = [];
      warnings = error ∷ [];
      booted_out = false;
      plist_removed = false;
      complete = false;
      plist_path_text = plist_path_of r.ownership;
    },
    s,
  )
  attempt_at r skip_bootout (ok found) s = tear_down sys r found.0 found.1 skip_bootout s

  unfoldable pub attempt : RunnerRecord → Bool → Stage W → Progress × Stage W
  unfolding attempt_at
  attempt r skip_bootout s =
      let place = call (sys.location r) (located r) s in attempt_at r skip_bootout place.0 place.1

  -- The pending entry is written back or dropped, and the registry is saved.
  unfoldable pub finish :
      RunnerRegistry
      → Split PendingCleanup
      → Progress
      → Stage W
      → (CleanupReport × RunnerRegistry) × Stage W
  finish registry found p s =
      let cleanup = record found.here {
        observations = found.here.observations ++ p.observations;
      } in
      let rest = if p.complete then found.rest else cleanup ∷ found.rest in
      let settled = record registry { pending_cleanup = found.front ++ rest } in
      let answer = save sys settled s in
      let complete = p.complete && not (is_some answer.0) in
      (
        (
          record {
            runner_id = cleanup.runner.id;
            service_name = cleanup.runner.service_name;
            plist_path = p.plist_path_text;
            booted_out = p.booted_out;
            plist_removed = p.plist_removed;
            cleanup_retained = not complete;
            retained_record = if complete then none else some cleanup;
            warnings = p.warnings ++ persistence_warning answer.0;
          },
          settled,
        ),
        answer.1,
      )

  unfoldable pub clean_pending :
      Bool
      → RunnerRegistry
      → Option (Split PendingCleanup)
      → Stage W
      → (Result (Option CleanupReport) × RunnerRegistry) × Stage W
  unfolding attempt finish
  clean_pending skip_bootout registry none s = ((ok none, registry), s)
  clean_pending skip_bootout registry (some found) s =
      let tried = attempt found.here.runner skip_bootout s in
      let done = finish registry found tried.0 tried.1 in ((ok (some done.0.0), done.0.1), done.1)

  -- What follows the journal's save; its failure ends the call.
  unfoldable pub after_journal :
      (RunnerRecord → Bool)
      → Bool
      → Option Bytes
      → RunnerRegistry
      → Stage W
      → (Result (Option CleanupReport) × RunnerRegistry) × Stage W
  unfolding position clean_pending
  after_journal chosen skip_bootout (some error) registry s = ((err error, registry), s)
  after_journal chosen skip_bootout none registry s =
      clean_pending skip_bootout registry (position (λ c. chosen c.runner) registry.pending_cleanup)
        s

  unfoldable pub remove_record :
      RunnerRegistry
      → Option Bytes
      → Option Bytes
      → Bool
      → Stage W
      → (Result (Option CleanupReport) × RunnerRegistry) × Stage W
  unfolding position journal after_journal
  remove_record registry runner_id service_name skip_bootout s =
      let chosen = chooses runner_id service_name in
      let begun = journal registry (position chosen registry.runners) s in
      after_journal chosen skip_bootout begun.0.0 begun.0.1 begun.1
