-- ===== src/RunnerManager/Authority.antt =====
-- The three ways that `remove_record` of controller/src/runner_manager.rs ends, and what each may
-- have done to the system.
use policy_witness.Base.{
  Bool, true, false, ◌||◌, Option, none, some, List, [], ◌∷◌, ◌++◌, if◌then◌else◌, Bytes, ◌≡◌, refl,
  sym, subst, ◌⊎◌, inl, inr, In, map, any, Result, ok, err, is_some, arith, not,
}
use policy_witness.RunnerManager.{
  RunnerRecord, RunnerRegistry, PendingCleanup, Split, keep_front, position,
}
use policy_witness.RunnerManager.Cleanup.{
  Event, saved, CleanupSystem, CleanupReport, Stage, journal, attempt, after_journal, finish,
  clean_pending, remove_record, chooses,
}
use policy_witness.RunnerManager.Guard.{Guarded, begun, attempt-Guarded, position-In}

abbrev pub runner_of : PendingCleanup → RunnerRecord
runner_of c = c.runner

abbrev pub Ending : Type 0
Ending = Result (Option CleanupReport) × RunnerRegistry

module _ (chosen : RunnerRecord → Bool) (registry : RunnerRegistry) where
  -- Nothing matches: nothing is done, and the registry is as it was.
  pub record IsIdle (end : Ending) (log : List Event) : Type 0 where
    pub no_runner : any chosen registry.runners ≡ false
    pub no_pending : any (λ c. chosen (runner_of c)) registry.pending_cleanup ≡ false
    pub answer : end ≡ (ok none, registry)
    pub nothing : log ≡ []

  -- A runner matches, and the journal that has it as pending cannot be saved: that is all there is
  -- in the log, and the call ends with the error.
  pub record IsUnsaved (end : Ending) (log : List Event) : Type 0 where
    pub found : Split RunnerRecord
    pub splits : registry.runners ≡ found.front ++ (found.here ∷ found.rest)
    pub matches : chosen found.here ≡ true
    pub moved : end.1.runners ≡ found.front ++ found.rest
    pub pending : In found.here (map runner_of end.1.pending_cleanup)
    pub error : Bytes
    pub answer : end.0 ≡ err error
    pub only_save : log ≡ saved end.1 false ∷ []

  -- The log before a removal of `r`: where a runner matches, the save of the journal, which
  -- succeeded; otherwise nothing. The record is pending then.
  abbrev pub Begun : RunnerRecord → List Event → Type 0
  Begun r start =
      ((any chosen registry.runners ≡ false)
        × ((start ≡ []) × In r (map runner_of registry.pending_cleanup)))
      ⊎ ((any chosen registry.runners ≡ true)
          × ((moved : RunnerRegistry) × ((start ≡ saved moved true ∷ [])
                × In r (map runner_of moved.pending_cleanup))))

  -- One matching record is removed under guard, and the registry is saved again, which may fail.
  pub record IsRemoval (end : Ending) (log : List Event) : Type 0 where
    pub r : RunnerRecord
    pub matches : chosen r ≡ true
    pub start : List Event
    pub begins : Begun r start
    pub done : List Event
    pub guarded : Guarded r start done
    pub kept : Bool
    pub last_save : log ≡ saved end.1 kept ∷ done
    pub report : CleanupReport
    pub answer : end.0 ≡ ok (some report)
    pub reported : report.runner_id ≡ r.id

  abbrev pub Allowed : Ending → List Event → Type 0
  Allowed end log = IsIdle end log ⊎ (IsUnsaved end log ⊎ IsRemoval end log)

position-none : {A : Type 0} (p : A → Bool) (xs : List A) → position p xs ≡ none → any p xs ≡ false
unfolding position any
position-none p [] h = refl
position-none {A = A} p (x ∷ xs) h = go (p x) (position p xs) refl (λ e. position-none p xs e) h
  where
    go :
        (t : Bool) (o : Option (Split A))
        → p x ≡ t
        → (o ≡ none → any p xs ≡ false)
        → (if t then some (record { front = []; here = x; rest = xs }) else keep_front x o) ≡ none
        → (p x || any p xs) ≡ false
    go true o e k h = absurd cc
    go false none e k h = rw (e, k refl) refl
    go false (some s) e k h = absurd cc

any_here :
    {A : Type 0} (p : A → Bool) (front rest : List A) (x : A)
    → p x ≡ true
    → any p (front ++ (x ∷ rest)) ≡ true
unfolding any
any_here p [] rest x h = rw h refl
any_here p (y ∷ front) rest x h = ground (arith, any_here p front rest x h)

middle_is_member :
    (front rest : List PendingCleanup) (c : PendingCleanup)
    → In (runner_of c) (map runner_of (front ++ (c ∷ rest)))
middle_is_member [] rest c = inl refl
middle_is_member (d ∷ front) rest c = inr (middle_is_member front rest c)

module _ {W : Type 0} (sys : CleanupSystem W) (chosen : RunnerRecord → Bool)
    (registry : RunnerRegistry) where
  clean_pending-IsRemoval :
      (skip : Bool) (moved : RunnerRegistry) (found : Split PendingCleanup) (s : Stage W)
      → chosen found.here.runner ≡ true
      → Begun chosen registry found.here.runner s.1
      → (let end = clean_pending sys skip moved (some found) s in
          IsRemoval chosen registry end.0 end.1.1)
  unfolding clean_pending finish
  clean_pending-IsRemoval skip moved found s e b =
      let r = found.here.runner in
      let tried = attempt sys r skip s in
      let done = finish sys moved found tried.0 tried.1 in
      record {
        r = r;
        matches = e;
        start = s.1;
        begins = b;
        done = tried.1.1;
        guarded = attempt-Guarded sys r s.1 skip s begun;
        kept = _;
        last_save = refl;
        report = done.0.0;
        answer = refl;
        reported = refl;
      }

  after_journal-pending :
      (skip : Bool) (moved : RunnerRegistry) (s : Stage W)
      → ((found : Split PendingCleanup)
          → moved.pending_cleanup ≡ found.front ++ (found.here ∷ found.rest)
          → Begun chosen registry found.here.runner s.1)
      → (let end = clean_pending sys skip moved none s in
          any (λ c. chosen (runner_of c)) moved.pending_cleanup ≡ false
          → Allowed chosen registry end.0 end.1.1)
      → (let end = after_journal sys chosen skip none moved s in
          Allowed chosen registry end.0 end.1.1)
  unfolding after_journal
  after_journal-pending skip moved s b idle =
      go (position (λ c. chosen (runner_of c)) moved.pending_cleanup) refl
    where
      go :
          (o : Option (Split PendingCleanup))
          → position (λ c. chosen (runner_of c)) moved.pending_cleanup ≡ o
          → (let end = clean_pending sys skip moved o s in Allowed chosen registry end.0 end.1.1)
      go none e = idle (position-none (λ c. chosen (runner_of c)) moved.pending_cleanup e)
      go (some found) e =
          let at = position-In (λ c. chosen (runner_of c)) moved.pending_cleanup found e in
          inr (inr (clean_pending-IsRemoval skip moved found s at.1 (b found at.0)))

  journalled-Allowed :
      (skip : Bool) (found : Split RunnerRecord) (moved : RunnerRegistry) (c : PendingCleanup)
      (w : W) (a : Option Bytes)
      → registry.runners ≡ found.front ++ (found.here ∷ found.rest)
      → chosen found.here ≡ true
      → moved.runners ≡ found.front ++ found.rest
      → moved.pending_cleanup ≡ registry.pending_cleanup ++ (c ∷ [])
      → runner_of c ≡ found.here
      → (let end = after_journal sys chosen skip a moved (w, saved moved (not (is_some a)) ∷ []) in
          Allowed chosen registry end.0 end.1.1)
  unfolding after_journal
  journalled-Allowed skip found moved c w (some error) splits e left pending same =
      let here =
        subst (λ l. In (runner_of c) (map runner_of l)) (sym pending)
          (middle_is_member registry.pending_cleanup [] c) in
      inr (
        inl (record {
          found = found;
          splits = splits;
          matches = e;
          moved = left;
          pending = subst (λ r. In r (map runner_of moved.pending_cleanup)) same here;
          error = error;
          answer = refl;
          only_save = refl;
        }))
  journalled-Allowed skip found moved c w none splits e left pending same =
      after_journal-pending skip moved (w, saved moved true ∷ [])
        (λ f at. inr (
          subst (λ l. any chosen l ≡ true) (sym splits)
              (any_here chosen found.front found.rest found.here e),
          (
            moved,
            (
              refl,
              subst (λ l. In (runner_of f.here) (map runner_of l)) (sym at)
                  (middle_is_member f.front f.rest f.here),
            ),
          ),
        ))
        (λ h.
          let matched =
            any_here (λ d. chosen (runner_of d)) registry.pending_cleanup [] c
              (subst (λ r. chosen r ≡ true) (sym same) e) in
          let t = subst (λ l. any (λ d. chosen (runner_of d)) l ≡ true) (sym pending) matched in
          absurd cc)

module _ {W : Type 0} (sys : CleanupSystem W) where
  -- From an empty log, a removal ends in one of three ways. Nothing matches: no call is made and the
  -- registry is as it was. Or a runner matches, and the save of the journal, which has it as pending,
  -- fails: that save is the only entry of the log, and the answer is the error. Or one matching
  -- record, which is pending then, is removed under guard: after the save of the journal, which
  -- succeeded, if a runner matches, and before the last save, the log holds only sights, waits, the
  -- location, a bootout of the service that was last seen owned, with at most a sight of a plist
  -- since, and an unlink right after a sight that shows the file owned; the answer is a report with the id of the record.
  pub remove_record-Allowed :
      (registry : RunnerRegistry) (id service : Option Bytes) (skip : Bool) (world : W)
      → (let end = remove_record sys registry id service skip (world, []) in
          Allowed (chooses id service) registry end.0 end.1.1)
  unfolding remove_record journal clean_pending
  remove_record-Allowed registry id service skip world =
      go (position (chooses id service) registry.runners) refl
    where
      unmatched :
          any (chooses id service) registry.runners ≡ false
          → any (λ c. chooses id service (runner_of c)) registry.pending_cleanup ≡ false
          → (let end = clean_pending sys skip registry none (world, []) in
              IsIdle (chooses id service) registry end.0 end.1.1)
      unmatched n p = record { no_runner = n; no_pending = p; answer = refl; nothing = refl }

      go :
          (o : Option (Split RunnerRecord))
          → position (chooses id service) registry.runners ≡ o
          → (let begun = journal sys registry o (world, []) in
              let end = after_journal sys (chooses id service) skip begun.0.0 begun.0.1 begun.1 in
              Allowed (chooses id service) registry end.0 end.1.1)
      go none e =
          let no_runner = position-none (chooses id service) registry.runners e in
          after_journal-pending sys (chooses id service) registry skip registry (world, [])
            (λ f at. inl (
              no_runner,
              (
                refl,
                subst (λ l. In (runner_of f.here) (map runner_of l)) (sym at)
                    (middle_is_member f.front f.rest f.here),
              ),
            ))
            (λ h. inl (unmatched no_runner h))
      go (some found) e =
          let begun = journal sys registry (some found) (world, []) in
          let at = position-In (chooses id service) registry.runners found e in
          let time = sys.now_unix_ms world in
          journalled-Allowed sys (chooses id service) registry skip found begun.0.1
            (record { runner = found.here; cleanup_started_at_unix_ms = time.0; observations = [] })
            begun.1.0 begun.0.0 at.0 at.1 refl refl refl
