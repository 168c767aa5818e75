-- ===== src/RunnerManager/Guard.antt =====
-- What a removal in controller/src/runner_manager.rs may do to the system after its journal is
-- saved, read off its log.
use policy_witness.Base.{
  ℕ, zero, suc, Bool, true, false, not, ◌&&◌, Option, none, some, List, [], ◌∷◌, ◌++◌, ltb,
  if◌then◌else◌, if_rule, Bytes, ◌≡◌, refl, ap, subst, Result, ok, err,
}
use policy_witness.RunnerManager.{
  RunnerRecord, ServiceObservation, PlistObservation, Ownership, owned, unowned, ambiguous, unsure,
  Split, keep_front, position, is_present, is_absent, is_owned, plist_ownership, service_ownership,
}
use policy_witness.RunnerManager.Cleanup.{
  Event, located, saw_service, saw_plist, booted, unlinked, waited, CleanupSystem, Stage, Teardown,
  see_service, see_plist, pause, Outcome, teardown_loop, service_after_bootout, bootout_step,
  unlink_inspected, unlink_step, tear_down, attempt_at, attempt, teardown_wait_ms,
  teardown_poll_interval_ms,
}

-- The last sight of the service, with at most a sight of a plist since, shows it owned.
abbrev pub MayBoot : RunnerRecord → Bytes → Bytes → List Event → Type 0
MayBoot r domain name (saw_service d n o ∷ log) =
    (d ≡ domain) × (n ≡ name) × (n ≡ r.service_name) × (service_ownership r o ≡ owned)
MayBoot r domain name (saw_plist p o ∷ log) = MayBoot r domain name log
MayBoot r domain name _ = ⊥

-- The event just before is a sight of the file that shows it owned.
abbrev pub MayUnlink : RunnerRecord → Bytes → List Event → Type 0
MayUnlink r path (saw_plist p o ∷ log) = (p ≡ path) × (plist_ownership r o ≡ owned)
MayUnlink r path _ = ⊥

-- What is done for the removal of `r` after a log, the latest event first: no save among it.
pub data Guarded (r : RunnerRecord) (start : List Event) : List Event → Type 0 where
  begun : Guarded r start start
  placed :
      {log : List Event} (place : Result (Bytes × Bytes))
      → Guarded r start log
      → Guarded r start (located r place ∷ log)
  looked_service :
      {log : List Event} (d n : Bytes) (o : ServiceObservation)
      → Guarded r start log
      → Guarded r start (saw_service d n o ∷ log)
  looked_plist :
      {log : List Event} (p : Bytes) (o : PlistObservation)
      → Guarded r start log
      → Guarded r start (saw_plist p o ∷ log)
  paused : {log : List Event} (ms : ℕ) → Guarded r start log → Guarded r start (waited ms ∷ log)
  stopped :
      {log : List Event} (d n : Bytes)
      → MayBoot r d n log
      → Guarded r start log
      → Guarded r start (booted d n ∷ log)
  removed :
      {log : List Event} (p : Bytes)
      → MayUnlink r p log
      → Guarded r start log
      → Guarded r start (unlinked p ∷ log)

is_owned_lem : (o : Ownership) → is_owned o ≡ true → o ≡ owned
is_owned_lem owned h = refl
is_owned_lem unowned h = cc
is_owned_lem ambiguous h = cc
is_owned_lem unsure h = cc

pub position-In {ℓ} :
    {A : Type ℓ} (p : A → Bool) (xs : List A) (found : Split A)
    → position p xs ≡ some found
    → (xs ≡ found.front ++ (found.here ∷ found.rest)) × (p found.here ≡ true)
unfolding position
position-In {A = A} p [] found h = cc
position-In {A = A} p (x ∷ xs) found h =
    go (p x) (position p xs) refl (λ s e. position-In p xs s e) h
  where
    go :
        (t : Bool) (o : Option (Split A))
        → p x ≡ t
        → ((s : Split A) → o ≡ some s → (xs ≡ s.front ++ (s.here ∷ s.rest)) × (p s.here ≡ true))
        → (if t then some (record { front = []; here = x; rest = xs }) else keep_front x o)
          ≡ some found
        → ((x ∷ xs) ≡ found.front ++ (found.here ∷ found.rest)) × (p found.here ≡ true)
    go true o e k h =
        let f : record { front = []; here = x; rest = xs } ≡ found = cc in
        subst (λ f. ((x ∷ xs) ≡ f.front ++ (f.here ∷ f.rest)) × (p f.here ≡ true)) f (refl, e)
    go false none e k h = cc
    go false (some s) e k h =
        let f : record s { front = x ∷ s.front } ≡ found = cc in
        let rest = k s refl in
        subst (λ f. ((x ∷ xs) ≡ f.front ++ (f.here ∷ f.rest)) × (p f.here ≡ true)) f
          (ap (λ l. x ∷ l) rest.0, rest.1)

module _ {W : Type 0} (sys : CleanupSystem W) (r : RunnerRecord) (start : List Event) where
  abbrev Ok : Stage W → Type 0
  Ok s = Guarded r start s.1

  see_service-Guarded :
      (domain : Bytes) (s : Stage W) → Ok s → Ok (see_service sys domain r.service_name s).1
  see_service-Guarded domain s h =
      looked_service domain r.service_name (sys.service domain r.service_name s.0).0 h

  see_plist-Guarded : (path : Bytes) (s : Stage W) → Ok s → Ok (see_plist sys path s).1
  see_plist-Guarded path s h = looked_plist path (sys.plist path s.0).0 h

  loop-Guarded :
      (fuel : ℕ) (domain : Bytes) (t : Teardown) (s : Stage W)
      → Ok s
      → Ok (teardown_loop sys r fuel domain t s).1
  unfolding teardown_loop
  loop-Guarded zero domain t s h = h
  loop-Guarded (suc fuel) domain t s h =
      if_rule (λ (x : Teardown × Stage W). Ok x.1)
        (is_present t.observation.presence && ltb t.waited_ms teardown_wait_ms) _ _
        (λ e.
          loop-Guarded fuel domain _ (see_service sys domain r.service_name (pause sys s)).1
            (see_service-Guarded domain (pause sys s) (paused teardown_poll_interval_ms h)))
        (λ e. h)

  after-Guarded :
      (domain : Bytes) (b : Bool) (s : Stage W)
      → Ok s
      → Ok (service_after_bootout sys r domain b s).1
  unfolding service_after_bootout
  after-Guarded domain true s h =
      let seen = see_service sys domain r.service_name s in
      loop-Guarded 20 domain (record { observation = seen.0; reads = 1; waited_ms = 0 }) seen.1
        (see_service-Guarded domain s h)
  after-Guarded domain false s h = see_service-Guarded domain s h

  bootout-Guarded :
      (skip : Bool) (domain : Bytes) (o : ServiceObservation) (s : Stage W)
      → Ok s
      → (service_ownership r o ≡ owned → MayBoot r domain r.service_name s.1)
      → Ok (bootout_step sys r skip domain o s).1
  unfolding bootout_step
  bootout-Guarded skip domain o s h may =
      if_rule (λ (x : Outcome × Stage W). Ok x.1) (not (is_absent o.presence) && not skip) _ _
        (λ e.
          if_rule (λ (x : Outcome × Stage W). Ok x.1) (is_owned (service_ownership r o)) _ _
            (λ e. stopped domain r.service_name (may (is_owned_lem (service_ownership r o) e)) h)
            (λ e. h))
        (λ e. h)

  inspected-Guarded : (path : Bytes) (s : Stage W) → Ok s → Ok (unlink_inspected sys r path s).1
  unfolding unlink_inspected
  inspected-Guarded path s h =
      let o = (see_plist sys path s).0 in
      if_rule (λ (x : Outcome × Stage W). Ok x.1) (is_owned (plist_ownership r o)) _ _
        (λ e.
          removed path (refl, is_owned_lem (plist_ownership r o) e) (see_plist-Guarded path s h))
        (λ e. see_plist-Guarded path s h)

  unlink-Guarded :
      (path : Bytes) (o : PlistObservation) (s : Stage W) → Ok s → Ok (unlink_step sys r path o s).1
  unfolding unlink_step
  unlink-Guarded path o s h =
      if_rule (λ (x : Outcome × Stage W). Ok x.1) (not (is_absent o.presence)) _ _
        (λ e.
          if_rule (λ (x : Outcome × Stage W). Ok x.1) (is_owned (plist_ownership r o)) _ _
            (λ e. inspected-Guarded path s h) (λ e. h))
        (λ e. h)

  tear_down-Guarded :
      (path domain : Bytes) (skip : Bool) (s : Stage W)
      → Ok s
      → Ok (tear_down sys r path domain skip s).1
  unfolding tear_down
  tear_down-Guarded path domain skip s h =
      let service = see_service sys domain r.service_name s in
      let plist = see_plist sys path service.1 in
      let boot = bootout_step sys r skip domain service.0 plist.1 in
      let gone = unlink_step sys r path plist.0 boot.1 in
      let last = service_after_bootout sys r domain boot.0.done gone.1 in
      let seen = see_plist-Guarded path service.1 (see_service-Guarded domain s h) in
      let booted =
        bootout-Guarded skip domain service.0 plist.1 seen (λ e. (refl, refl, refl, e)) in
      see_plist-Guarded path last.1
        (after-Guarded domain boot.0.done gone.1 (unlink-Guarded path plist.0 boot.1 booted))

  attempt_at-Guarded :
      (skip : Bool) (place : Result (Bytes × Bytes)) (s : Stage W)
      → Ok s
      → Ok (attempt_at sys r skip place s).1
  unfolding attempt_at
  attempt_at-Guarded skip (err e) s h = h
  attempt_at-Guarded skip (ok f) s h = tear_down-Guarded f.0 f.1 skip s h

  pub attempt-Guarded : (skip : Bool) (s : Stage W) → Ok s → Ok (attempt sys r skip s).1
  unfolding attempt
  attempt-Guarded skip s h =
      let place = sys.location r s.0 in
      attempt_at-Guarded skip place.0 (place.1, located r place.0 ∷ s.1) (placed place.0 h)
