-- ===== src/RunnerManager/Report.antt =====
-- What a report of `remove_record` of controller/src/runner_manager.rs says when it says that
-- nothing is retained.
use policy_witness.Base.{
  Bool, true, false, not, ◌&&◌, Option, none, some, List, [], ◌∷◌, ◌++◌, Bytes, ◌≡◌, refl, sym,
  subst, Result, ok, append-nil, ap, ◌∙◌, is_some,
}
use policy_witness.RunnerManager.{RunnerRecord, RunnerRegistry, PendingCleanup, Split, position}
use policy_witness.RunnerManager.Cleanup.{
  Event, saved, CleanupSystem, Stage, CleanupReport, Progress, journal, attempt, after_journal,
  finish, clean_pending, remove_record, chooses, persistence_warning,
}
use policy_witness.RunnerManager.Retention.{SawAbsent, attempt-SawAbsent}

unretained :
    (c : Bool) (e : Option Bytes) → not (c && not (is_some e)) ≡ false → (c ≡ true) × (e ≡ none)
unretained true none h = (refl, refl)
unretained true (some e) h = cc
unretained false e h = cc

-- A removal that ends with nothing left to do: no warning, and a registry that was saved after the
-- service and the plist of the reported runner were seen to be absent.
abbrev pub IsSettled :
    {W : Type 0}
    → CleanupReport
    → (Result (Option CleanupReport) × RunnerRegistry) × Stage W
    → Type 0
IsSettled report end =
    (report.warnings ≡ [])
    × ((r : RunnerRecord) × ((log : List Event) × ((r.id ≡ report.runner_id)
            × (r.service_name ≡ report.service_name)
            × (end.1.1 ≡ saved end.0.1 true ∷ log)
            × SawAbsent r log)))

module _ {W : Type 0} (sys : CleanupSystem W) where
  finish_report :
      (registry : RunnerRegistry) (found : Split PendingCleanup) (p : Progress) (s : Stage W)
      → (finish sys registry found p s).0.0.cleanup_retained ≡ false
      → (p.complete ≡ true)
        × ((finish sys registry found p s).0.0.warnings ≡ p.warnings)
        × ((finish sys registry found p s).1.1
            ≡ saved (finish sys registry found p s).0.1 true ∷ s.1)
  unfolding finish
  finish_report registry found p s h =
      let none_left = unretained p.complete _ h in
      (
        none_left.0,
        subst (λ e. p.warnings ++ persistence_warning e ≡ p.warnings) (sym none_left.1)
            (append-nil p.warnings),
        ap (λ e. saved (finish sys registry found p s).0.1 (not (is_some e)) ∷ s.1) none_left.1,
      )

  clean_pending-report :
      (skip : Bool) (registry : RunnerRegistry) (o : Option (Split PendingCleanup)) (s : Stage W)
      (report : CleanupReport)
      → (clean_pending sys skip registry o s).0.0 ≡ ok (some report)
      → report.cleanup_retained ≡ false
      → IsSettled report (clean_pending sys skip registry o s)
  unfolding clean_pending finish
  clean_pending-report skip registry none s report h k = cc
  clean_pending-report skip registry (some found) s report h k =
      let r = found.here.runner in
      let tried = attempt sys r skip s in
      let same : (finish sys registry found tried.0 tried.1).0.0 ≡ report = cc in
      let done = finish sys registry found tried.0 tried.1 in
      let fin =
        finish_report registry found tried.0 tried.1
          (ap (λ (c : CleanupReport). c.cleanup_retained) same ∙ k) in
      let gone = attempt-SawAbsent sys r skip s fin.0 in
      subst (λ (c : CleanupReport). IsSettled c ((ok (some done.0.0), done.0.1), done.1)) same
        (fin.1 ∙ gone.1, (r, (tried.1.1, (refl, refl, fin.2, gone.0))))

  after_journal-report :
      (chosen : RunnerRecord → Bool) (skip : Bool) (e : Option Bytes) (registry : RunnerRegistry)
      (s : Stage W) (report : CleanupReport)
      → (after_journal sys chosen skip e registry s).0.0 ≡ ok (some report)
      → report.cleanup_retained ≡ false
      → IsSettled report (after_journal sys chosen skip e registry s)
  unfolding after_journal
  after_journal-report chosen skip (some error) registry s report h k = cc
  after_journal-report chosen skip none registry s report h k =
      clean_pending-report skip registry (position (λ c. chosen c.runner) registry.pending_cleanup)
        s report h k

  -- A report that no cleanup is retained comes with no warning, and the log then ends with the save
  -- of the registry, which succeeded, right after sights that found neither the service nor the
  -- plist of a record with the report's id and service name: the sights are of that name in the
  -- domain, and of the plist, that were found as the record's location.
  pub remove_record-IsSettled :
      (registry : RunnerRegistry) (id service : Option Bytes) (skip : Bool) (s : Stage W)
      (report : CleanupReport)
      → (remove_record sys registry id service skip s).0.0 ≡ ok (some report)
      → report.cleanup_retained ≡ false
      → IsSettled report (remove_record sys registry id service skip s)
  unfolding remove_record
  remove_record-IsSettled registry id service skip s report h k =
      let chosen = chooses id service in
      let begun = journal sys registry (position chosen registry.runners) s in
      after_journal-report chosen skip begun.0.0 begun.0.1 begun.1 report h k
