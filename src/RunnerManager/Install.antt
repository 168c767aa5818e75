-- ===== src/RunnerManager/Install.antt =====
-- `install_record` of controller/src/runner_manager.rs: the record is saved as pending before the
-- installation acts, and as installed after it.
use policy_witness.Base.{
  Bool, true, false, not, Option, none, some, List, [], ◌∷◌, ◌++◌, Bytes, codes, Result, ok, err,
  is_some, ◌≡◌, refl, ◌⊎◌, inl, inr,
}
use policy_witness.RunnerManager.{RunnerRecord, RunnerRegistry, pending, installed}

-- The latest action first.
pub data Action : Type 0 where
  saved : RunnerRegistry → Bool → Action
  ran : Bool → Action

-- `save_registry`, the caller's `install`, and `Path::display` of the registry's path.
pub record InstallSystem (W : Type 0) : Type 0 where
  pub save_registry : RunnerRegistry → W → Option Bytes × W
  pub install : W → Option Bytes × W
  pub path_text : Bytes

abbrev pub Run : Type 0 → Type 0
Run W = W × List Action

-- `registry` with the record at the end of its runners.
abbrev pub with_runner : RunnerRegistry → RunnerRecord → RunnerRegistry
with_runner registry r = record registry { runners = registry.runners ++ (r ∷ []) }

abbrev pub as_pending : RunnerRecord → RunnerRecord
as_pending r = record r { state = pending }

abbrev pub as_installed : RunnerRecord → RunnerRecord
as_installed r = record r { state = installed }

unfoldable pub retained_text : RunnerRecord → Bytes → Bytes → Bytes
retained_text r path error =
    error
    ++ (codes "; pending runner "
        ++ (r.id
            ++ (codes " ("
                ++ (r.service_name
                    ++ (codes ") retained in "
                        ++ (path
                            ++ (codes "; retry runner remove --service-name "
                                ++ r.service_name)))))))

module _ {W : Type 0} (sys : InstallSystem W) (registry : RunnerRegistry) (r : RunnerRecord) where
  abbrev pub save : RunnerRegistry → Run W → Option Bytes × Run W
  save after s =
      let answer = sys.save_registry after s.0 in
      (answer.0, (answer.1, saved after (not (is_some answer.0)) ∷ s.1))

  abbrev pub run_install : Run W → Option Bytes × Run W
  run_install s =
      let answer = sys.install s.0 in (answer.0, (answer.1, ran (not (is_some answer.0)) ∷ s.1))

  abbrev pub Installed : Type 0
  Installed = (Result RunnerRecord × RunnerRegistry) × Run W

  -- The answer of the last save.
  unfoldable pub after_save : Option Bytes → Run W → Installed
  unfolding retained_text
  after_save none s = ((ok (as_installed r), with_runner registry (as_installed r)), s)
  after_save (some error) s =
      ((err (retained_text r sys.path_text error), with_runner registry (as_installed r)), s)

  -- The answer of `install`.
  unfoldable pub after_install : Option Bytes → Run W → Installed
  unfolding after_save retained_text
  after_install none s =
      let answer = save (with_runner registry (as_installed r)) s in after_save answer.0 answer.1
  after_install (some error) s =
      ((err (retained_text r sys.path_text error), with_runner registry (as_pending r)), s)

  -- The answer of the first save.
  unfoldable pub after_pending : Option Bytes → Run W → Installed
  unfolding after_install
  after_pending none s = let answer = run_install s in after_install answer.0 answer.1
  after_pending (some error) s = ((err error, with_runner registry (as_pending r)), s)

  unfoldable pub install_record : Run W → Installed
  unfolding after_pending
  install_record s =
      let answer = save (with_runner registry (as_pending r)) s in after_pending answer.0 answer.1

  -- The four courses of an installation: where it stops, what it answers, and what it has done.
  abbrev pub Course : List Action → Installed → Type 0
  Course log end =
      let pending_registry = with_runner registry (as_pending r) in
      let installed_registry = with_runner registry (as_installed r) in
      ((error : Bytes) × ((end.0 ≡ (err error, pending_registry))
          × ((end.1.1 ≡ saved pending_registry false ∷ log)
              ⊎ (end.1.1 ≡ ran false ∷ saved pending_registry true ∷ log))))
      ⊎ (((error : Bytes) × ((end.0 ≡ (err error, installed_registry))
              × (end.1.1
                  ≡ saved installed_registry false ∷ ran true ∷ saved pending_registry true ∷ log)))
          ⊎ ((end.0 ≡ (ok (as_installed r), installed_registry))
              × (end.1.1
                  ≡ saved installed_registry true ∷ ran true ∷ saved pending_registry true ∷ log)))

  save-Course :
      (o : Option Bytes) (w : W) (log : List Action)
      → (let pending_registry = with_runner registry (as_pending r) in
          let installed_registry = with_runner registry (as_installed r) in
          Course log (
            after_save o (
              w,
              saved installed_registry (not (is_some o))
                  ∷ ran true
                  ∷ saved pending_registry true
                  ∷ log,
            )))
  unfolding after_save
  save-Course none w log = inr (inr (refl, refl))
  save-Course (some e) w log = inr (inl (retained_text r sys.path_text e, (refl, refl)))

  install-Course :
      (o : Option Bytes) (w : W) (log : List Action)
      → (let pending_registry = with_runner registry (as_pending r) in
          Course log
            (after_install o (w, ran (not (is_some o)) ∷ saved pending_registry true ∷ log)))
  unfolding after_install
  install-Course none w log =
      let answer = sys.save_registry (with_runner registry (as_installed r)) w in
      save-Course answer.0 answer.1 log
  install-Course (some e) w log = inl (retained_text r sys.path_text e, (refl, inr refl))

  journal-Course :
      (o : Option Bytes) (w : W) (log : List Action)
      → (let pending_registry = with_runner registry (as_pending r) in
          Course log (after_pending o (w, saved pending_registry (not (is_some o)) ∷ log)))
  unfolding after_pending
  journal-Course none w log = let answer = sys.install w in install-Course answer.0 answer.1 log
  journal-Course (some e) w log = inl (e, (refl, inl refl))

  -- An installation takes one of four courses. The first save, of the registry with the record at
  -- its end as pending, fails, and nothing else is done; or it succeeds, and then the installation
  -- fails; or the installation succeeds, and then the save with the record as installed fails; or
  -- all three succeed. Only the last answers with the record, marked as installed; the others
  -- answer with an error, and the registry names the record as pending, or as installed when only
  -- the last save failed.
  pub install_record-Course : (s : Run W) → Course s.1 (install_record s)
  unfolding install_record
  install_record-Course s =
      let answer = sys.save_registry (with_runner registry (as_pending r)) s.0 in
      journal-Course answer.0 answer.1 s.1
