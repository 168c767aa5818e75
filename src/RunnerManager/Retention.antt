-- ===== src/RunnerManager/Retention.antt =====
-- What `remove_record` of controller/src/runner_manager.rs keeps of the registry.
use policy_witness.Base.{
  Bool, true, false, ◌&&◌, Option, none, some, List, [], ◌∷◌, ◌++◌, if◌then◌else◌, Bytes, ◌≡◌, refl,
  sym, subst, ◌⊎◌, inl, inr, ◌↔◌, In, map, is_empty, is_empty_lem, Result, ok, err, In-append,
  if_rule, Bool-cases, ℕ, zero, suc, not, ltb,
}
use policy_witness.RunnerManager.{
  RunnerRecord, RunnerRegistry, PendingCleanup, ServiceObservation, Split, position, is_absent,
  cleanup_complete, PlistObservation, is_owned, is_present, service_ownership, plist_ownership,
}
use policy_witness.RunnerManager.Cleanup.{
  Event, saved, located, saw_service, saw_plist, booted, unlinked, waited, CleanupSystem, Teardown,
  Outcome, pause, teardown_loop, teardown_wait_ms, unlink_inspected, Stage, Progress, see_service,
  see_plist, unconfirmed, service_after_bootout, bootout_step, unlink_step, tear_down, journal,
  attempt_at, attempt, after_journal, finish, clean_pending, remove_record, chooses,
}
use policy_witness.RunnerManager.Guard.{position-In}
use policy_witness.RunnerManager.Teardown.{LastSight, service_after_bootout-LastSight}

-- Since the last save, the location that was found for `r` last is this plist and this domain.
abbrev pub LocatedAt : RunnerRecord → Bytes → Bytes → List Event → Type 0
LocatedAt r path domain [] = ⊥
LocatedAt r path domain (located q place ∷ log) = (q ≡ r) × (place ≡ ok (path, domain))
LocatedAt r path domain (saved registry b ∷ log) = ⊥
LocatedAt r path domain (saw_service d n o ∷ log) = LocatedAt r path domain log
LocatedAt r path domain (saw_plist p o ∷ log) = LocatedAt r path domain log
LocatedAt r path domain (booted d n ∷ log) = LocatedAt r path domain log
LocatedAt r path domain (unlinked p ∷ log) = LocatedAt r path domain log
LocatedAt r path domain (waited ms ∷ log) = LocatedAt r path domain log

-- The log ends with a sight of the service of `r` in its domain and then one of its plist, neither
-- of them there.
abbrev pub SawService : RunnerRecord → Bytes → List Event → Type 0
SawService r path (saw_service d n o ∷ log) =
    (n ≡ r.service_name) × ((is_absent o.presence ≡ true) × LocatedAt r path d log)
SawService r path _ = ⊥

abbrev pub SawAbsent : RunnerRecord → List Event → Type 0
SawAbsent r (saw_plist p o ∷ log) = (is_absent o.presence ≡ true) × SawService r p log
SawAbsent r _ = ⊥

-- The same, before the last save.
abbrev pub Confirmed : RunnerRecord → List Event → Type 0
Confirmed r (saved registry b ∷ log) = SawAbsent r log
Confirmed r _ = ⊥

-- The registry names the record, as a runner or as one whose removal is pending.
abbrev pub Held : RunnerRecord → RunnerRegistry → Type 0
Held r registry = In r registry.runners ⊎ In r (map (λ c. c.runner) registry.pending_cleanup)

and_parts : (a b : Bool) → (a && b) ≡ true → (a ≡ true) × (b ≡ true)
and_parts true b h = (refl, h)
and_parts false b h = cc

In-map-append :
    {A B : Type 0} (f : A → B) (b : B) (xs ys : List A)
    → In b (map f (xs ++ ys)) ↔ (In b (map f xs) ⊎ In b (map f ys))
In-map-append f b [] ys = (inr, λ h. elim h [ inl x ↦ elim x [ ] | inr y ↦ y ])
In-map-append f b (x ∷ xs) ys = (
  λ h. elim h [
    | inl e ↦ inl (inl e)
    | inr t ↦ elim ((In-map-append f b xs ys).0 t) [ inl l ↦ inl (inr l) | inr r ↦ inr r ]
  ],
  λ h. elim h [
    | inl l ↦ elim l [ inl e ↦ inl e | inr t ↦ inr ((In-map-append f b xs ys).1 (inl t)) ]
    | inr r ↦ inr ((In-map-append f b xs ys).1 (inr r))
  ],
)

module _ {W : Type 0} (sys : CleanupSystem W) where
  LastSight-SawService :
      (r : RunnerRecord) (path domain : Bytes) (o : ServiceObservation) (log : List Event)
      → is_absent o.presence ≡ true
      → LastSight domain r.service_name o log
      → LocatedAt r path domain log
      → SawService r path log
  LastSight-SawService r path domain o (saw_service d n seen ∷ log) a h at = (
    h.1.0,
    (
      subst (λ o. is_absent o.presence ≡ true) (sym h.1.1) a,
      subst (λ e. LocatedAt r path e log) (sym h.0) at,
    ),
  )
  LastSight-SawService r path domain o _ a h at = absurd h

  module _ (r : RunnerRecord) (path domain : Bytes) where
    abbrev Here : Stage W → Type 0
    Here s = LocatedAt r path domain s.1

    loop-Here :
        (fuel : ℕ) (d : Bytes) (t : Teardown) (s : Stage W)
        → Here s
        → Here (teardown_loop sys r fuel d t s).1
    unfolding teardown_loop
    loop-Here zero d t s h = h
    loop-Here (suc fuel) d t s h =
        if_rule (λ (x : Teardown × Stage W). Here x.1)
          (is_present t.observation.presence && ltb t.waited_ms teardown_wait_ms) _ _
          (λ e. loop-Here fuel d _ (see_service sys d r.service_name (pause sys s)).1 h) (λ e. h)

    service_after_bootout-Here :
        (d : Bytes) (b : Bool) (s : Stage W) → Here s → Here (service_after_bootout sys r d b s).1
    unfolding service_after_bootout
    service_after_bootout-Here d true s h =
        let seen = see_service sys d r.service_name s in
        loop-Here 20 d (record { observation = seen.0; reads = 1; waited_ms = 0 }) seen.1 h
    service_after_bootout-Here d false s h = h

    bootout_step-Here :
        (skip : Bool) (d : Bytes) (o : ServiceObservation) (s : Stage W)
        → Here s
        → Here (bootout_step sys r skip d o s).1
    unfolding bootout_step
    bootout_step-Here skip d o s h =
        if_rule (λ (x : Outcome × Stage W). Here x.1) (not (is_absent o.presence) && not skip) _ _
          (λ e.
            if_rule (λ (x : Outcome × Stage W). Here x.1) (is_owned (service_ownership r o)) _ _
              (λ e. h) (λ e. h))
          (λ e. h)

    unlink_inspected-Here : (p : Bytes) (s : Stage W) → Here s → Here (unlink_inspected sys r p s).1
    unfolding unlink_inspected
    unlink_inspected-Here p s h =
        if_rule (λ (x : Outcome × Stage W). Here x.1)
          (is_owned (plist_ownership r (see_plist sys p s).0)) _ _ (λ e. h) (λ e. h)

    unlink_step-Here :
        (p : Bytes) (o : PlistObservation) (s : Stage W) → Here s → Here (unlink_step sys r p o s).1
    unfolding unlink_step
    unlink_step-Here p o s h =
        if_rule (λ (x : Outcome × Stage W). Here x.1) (not (is_absent o.presence)) _ _
          (λ e.
            if_rule (λ (x : Outcome × Stage W). Here x.1) (is_owned (plist_ownership r o)) _ _
              (λ e. unlink_inspected-Here p s h) (λ e. h))
          (λ e. h)

  tear_down-SawAbsent :
      (r : RunnerRecord) (path domain : Bytes) (skip : Bool) (s : Stage W)
      → LocatedAt r path domain s.1
      → (tear_down sys r path domain skip s).0.complete ≡ true
      → SawAbsent r (tear_down sys r path domain skip s).1.1
        × ((tear_down sys r path domain skip s).0.warnings ≡ [])
  unfolding tear_down cleanup_complete
  tear_down-SawAbsent r path domain skip s at h =
      let service = see_service sys domain r.service_name s in
      let plist = see_plist sys path service.1 in
      let boot = bootout_step sys r skip domain service.0 plist.1 in
      let gone = unlink_step sys r path plist.0 boot.1 in
      let last = service_after_bootout sys r domain boot.0.done gone.1 in
      let plist_after = see_plist sys path last.1 in
      let warned = boot.0.warnings ++ gone.0.warnings in
      let both =
        and_parts (cleanup_complete last.0.observation plist_after.0) (is_empty warned) h in
      let absent =
        and_parts (is_absent last.0.observation.presence) (is_absent plist_after.0.presence)
          both.0 in
      let sight = service_after_bootout-LastSight sys r domain boot.0.done gone.1 in
      let here = service_after_bootout-Here r path domain domain boot.0.done gone.1 (
        unlink_step-Here r path domain path plist.0 boot.1
          (bootout_step-Here r path domain skip domain service.0 plist.1 at)) in
      (
        (
          absent.1,
          LastSight-SawService r path domain last.0.observation last.1.1 absent.0 sight here,
        ),
        if_rule (λ w. w ≡ []) (cleanup_complete last.0.observation plist_after.0 && is_empty warned)
            warned (warned ++ (unconfirmed ∷ [])) (λ e. is_empty_lem warned both.1) (λ e. cc),
      )

  attempt_at-SawAbsent :
      (r : RunnerRecord) (skip : Bool) (place : Result (Bytes × Bytes)) (s : Stage W)
      → (attempt_at sys r skip place (s.0, located r place ∷ s.1)).0.complete ≡ true
      → SawAbsent r (attempt_at sys r skip place (s.0, located r place ∷ s.1)).1.1
        × ((attempt_at sys r skip place (s.0, located r place ∷ s.1)).0.warnings ≡ [])
  unfolding attempt_at
  attempt_at-SawAbsent r skip (err e) s h = cc
  attempt_at-SawAbsent r skip (ok f) s h =
      tear_down-SawAbsent r f.0 f.1 skip (s.0, located r (ok f) ∷ s.1) (refl, refl) h

  pub attempt-SawAbsent :
      (r : RunnerRecord) (skip : Bool) (s : Stage W)
      → (attempt sys r skip s).0.complete ≡ true
      → SawAbsent r (attempt sys r skip s).1.1 × ((attempt sys r skip s).0.warnings ≡ [])
  unfolding attempt
  attempt-SawAbsent r skip s h =
      let place = sys.location r s.0 in attempt_at-SawAbsent r skip place.0 (place.1, s.1) h

  finish-Held :
      (x : RunnerRecord) (registry : RunnerRegistry) (found : Split PendingCleanup) (p : Progress)
      (s : Stage W)
      → registry.pending_cleanup ≡ found.front ++ (found.here ∷ found.rest)
      → Held x registry
      → Held x (finish sys registry found p s).0.1 ⊎ ((x ≡ found.here.runner) × (p.complete ≡ true))
  unfolding finish
  finish-Held x registry found p s at (inl h) = inl (inl h)
  finish-Held x registry found p s at (inr h) =
      elim ((In-map-append runner_of x found.front (found.here ∷ found.rest)).0 here) [
        | inl l ↦ inl (inr ((In-map-append runner_of x found.front _).1 (inl l)))
        | inr (inl e) ↦ elim (Bool-cases p.complete) [
          | inl c ↦ inr (e, c)
          | inr c ↦ inl (inr ((In-map-append runner_of x found.front _).1 (inr (kept_here c e))))
        ]
        | inr (inr t) ↦ inl (inr ((In-map-append runner_of x found.front _).1 (inr (kept_rest t))))
      ]
    where
      runner_of : PendingCleanup → RunnerRecord
      runner_of c = c.runner

      written : PendingCleanup
      written = record found.here { observations = found.here.observations ++ p.observations }

      here : In x (map runner_of (found.front ++ (found.here ∷ found.rest)))
      here = subst (λ l. In x (map runner_of l)) at h

      kept_here :
          p.complete ≡ false
          → x ≡ found.here.runner
          → In x (map runner_of (if p.complete then found.rest else written ∷ found.rest))
      kept_here c e =
          if_rule (λ l. In x (map runner_of l)) p.complete found.rest (written ∷ found.rest)
            (λ t. cc) (λ t. inl e)

      kept_rest :
          In x (map runner_of found.rest)
          → In x (map runner_of (if p.complete then found.rest else written ∷ found.rest))
      kept_rest t =
          if_rule (λ l. In x (map runner_of l)) p.complete found.rest (written ∷ found.rest)
            (λ _. t) (λ _. inr t)

  clean_pending-Held :
      (x : RunnerRecord) (skip : Bool) (registry : RunnerRegistry)
      (o : Option (Split PendingCleanup)) (s : Stage W)
      → ((found : Split PendingCleanup)
          → o ≡ some found
          → registry.pending_cleanup ≡ found.front ++ (found.here ∷ found.rest))
      → Held x registry
      → (let end = clean_pending sys skip registry o s in Held x end.0.1 ⊎ Confirmed x end.1.1)
  unfolding clean_pending finish
  clean_pending-Held x skip registry none s at h = inl h
  clean_pending-Held x skip registry (some found) s at h =
      let r = found.here.runner in
      let tried = attempt sys r skip s in
      elim (finish-Held x registry found tried.0 tried.1 (at found refl) h) [
        | inl k ↦ inl k
        | inr (e, c) ↦
            inr (subst (λ y. SawAbsent y tried.1.1) (sym e) (attempt-SawAbsent r skip s c).0)
      ]

  journal-Held :
      (x : RunnerRecord) (registry : RunnerRegistry) (o : Option (Split RunnerRecord)) (s : Stage W)
      → ((found : Split RunnerRecord)
          → o ≡ some found
          → registry.runners ≡ found.front ++ (found.here ∷ found.rest))
      → Held x registry
      → Held x (journal sys registry o s).0.1
  unfolding journal
  journal-Held x registry none s at h = h
  journal-Held x registry (some found) s at (inr h) =
      inr ((In-map-append (λ c. c.runner) x registry.pending_cleanup _).1 (inl h))
  journal-Held x registry (some found) s at (inl h) =
      let i = subst (λ l. In x l) (at found refl) h in
      elim ((In-append x found.front (found.here ∷ found.rest)).0 i) [
        | inl l ↦ inl ((In-append x found.front found.rest).1 (inl l))
        | inr (inl e) ↦
            inr ((In-map-append (λ c. c.runner) x registry.pending_cleanup _).1 (inr (inl e)))
        | inr (inr t) ↦ inl ((In-append x found.front found.rest).1 (inr t))
      ]

  after_journal-Held :
      (x : RunnerRecord) (chosen : RunnerRecord → Bool) (skip : Bool) (e : Option Bytes)
      (registry : RunnerRegistry) (s : Stage W)
      → Held x registry
      → (let end = after_journal sys chosen skip e registry s in
          Held x end.0.1 ⊎ Confirmed x end.1.1)
  unfolding after_journal
  after_journal-Held x chosen skip (some error) registry s h = inl h
  after_journal-Held x chosen skip none registry s h =
      clean_pending-Held x skip registry (position (λ c. chosen c.runner) registry.pending_cleanup)
        s (λ found e. (position-In (λ c. chosen c.runner) registry.pending_cleanup found e).0) h

  -- Every record that the registry names, as a runner or as pending cleanup, is still named by it
  -- when a removal ends, error or not, unless the log shows it gone: before the last save, the last
  -- sights of its service, in the domain, and of the plist that were found as its location find
  -- neither.
  pub remove_record-Held :
      (registry : RunnerRegistry) (id service : Option Bytes) (skip : Bool) (s : Stage W)
      (x : RunnerRecord)
      → Held x registry
      → (let end = remove_record sys registry id service skip s in
          Held x end.0.1 ⊎ Confirmed x end.1.1)
  unfolding remove_record
  remove_record-Held registry id service skip s x h =
      let chosen = chooses id service in
      let begun = journal sys registry (position chosen registry.runners) s in
      after_journal-Held x chosen skip begun.0.0 begun.0.1 begun.1 (
        journal-Held x registry (position chosen registry.runners) s
          (λ found e. (position-In chosen registry.runners found e).0) h)
