-- ===== src/RunnerManager/Teardown.antt =====
-- The wait after a bootout, `service_after_bootout` of controller/src/runner_manager.rs.
use policy_witness.Base.{
  ℕ, zero, suc, ◌+◌, ◌*◌, ◌≤◌, Bool, true, false, ◌&&◌, List, ◌∷◌, ltb, if_rule, Bytes, ◌≡◌, refl,
  arith,
}
use policy_witness.RunnerManager.{RunnerRecord, ServiceObservation, is_present}
use policy_witness.RunnerManager.Cleanup.{
  Event, saw_service, waited, CleanupSystem, Stage, Teardown, see_service, pause, teardown_loop,
  service_after_bootout, teardown_wait_ms,
}

-- The counts of a wait agree with each other and stay within the budget.
abbrev pub IsCounted : Teardown → Type 0
IsCounted t = (t.waited_ms + 50 ≡ 50 * t.reads) × (t.waited_ms ≤ 1000)

-- The latest event is the sight of the service that the result holds.
abbrev pub LastSight : Bytes → Bytes → ServiceObservation → List Event → Type 0
LastSight domain name o (saw_service d n seen ∷ log) = (d ≡ domain) × ((n ≡ name) × (seen ≡ o))
LastSight domain name o _ = ⊥

below : (b : Bool) (n : ℕ) → (b && ltb n 1000) ≡ true → suc n ≤ 1000
below true n h = ground arith
below false n h = cc

full : (b : Bool) (n : ℕ) → (b && ltb n 1000) ≡ false → b ≡ true → 1000 ≤ n
full true n h p = ground arith
full false n h p = cc

reached : (b : Bool) (n : ℕ) → 1000 ≤ n → (b && ltb n 1000) ≡ false
reached true n h = ground arith
reached false n h = refl

counted :
    (waited_ms reads : ℕ)
    → (waited_ms + 50 ≡ 50 * reads) × (waited_ms ≤ 1000)
    → suc waited_ms ≤ 1000
    → ((waited_ms + 50) + 50 ≡ 50 * (reads + 1)) × (waited_ms + 50 ≤ 1000)
counted waited_ms reads h lt = (omega (arith, h.0), omega (arith, h.0, lt))

module _ {W : Type 0} (sys : CleanupSystem W) (r : RunnerRecord) (domain : Bytes) where
  -- A look at the service, and 50 ms that pass.
  abbrev pub look : Stage W → ServiceObservation × Stage W
  look s =
      let seen = sys.service domain r.service_name s.0 in
      (seen.0, (seen.1, saw_service domain r.service_name seen.0 ∷ s.1))

  abbrev pub later : Stage W → Stage W
  later s = (sys.wait 50 s.0, waited 50 ∷ s.1)

  -- The service is looked at, and again 50 ms after a look that finds it present: how often, what
  -- was seen last, and the world and the log then.
  pub data Polls (s : Stage W) : ℕ → ServiceObservation → Stage W → Type 0 where
    once : Polls s 1 (look s).0 (look s).1
    again :
        {n : ℕ} {o : ServiceObservation} {t : Stage W}
        → Polls s n o t
        → is_present o.presence ≡ true
        → Polls s (n + 1) (look (later t)).0 (look (later t)).1

  abbrev Good : Stage W → Teardown × Stage W → Type 0
  Good from x =
      IsCounted x.0
      × (LastSight domain r.service_name x.0.observation x.1.1
          × Polls from x.0.reads x.0.observation x.1)

  first_part : (a b : Bool) → (a && b) ≡ true → a ≡ true
  first_part true b h = refl
  first_part false b h = cc

  loop_keeps :
      (fuel : ℕ) (from : Stage W) (t : Teardown) (s : Stage W)
      → Good from (t, s)
      → Good from (teardown_loop sys r fuel domain t s)
  unfolding teardown_loop
  loop_keeps zero from t s h = h
  loop_keeps (suc fuel) from t s h =
      if_rule (λ (x : Teardown × Stage W). Good from x)
        (is_present t.observation.presence && ltb t.waited_ms teardown_wait_ms) _ _
        (λ e. loop_keeps fuel from _ (see_service sys domain r.service_name (pause sys s)).1 (
          counted t.waited_ms t.reads h.0 (below (is_present t.observation.presence) t.waited_ms e),
          ((refl, (refl, refl)), again h.1.1 (first_part _ _ e)),
        ))
        (λ e. h)

  loop_ends :
      (fuel : ℕ) (t : Teardown) (s : Stage W)
      → 1000 ≤ t.waited_ms + 50 * fuel
      → (let last = (teardown_loop sys r fuel domain t s).0 in
          (is_present last.observation.presence && ltb last.waited_ms teardown_wait_ms) ≡ false)
  unfolding teardown_loop
  loop_ends zero t s h = reached (is_present t.observation.presence) t.waited_ms (omega arith)
  loop_ends (suc fuel) t s h =
      if_rule
        (λ (x : Teardown × Stage W).
          (is_present x.0.observation.presence && ltb x.0.waited_ms teardown_wait_ms) ≡ false)
        (is_present t.observation.presence && ltb t.waited_ms teardown_wait_ms) _ _
        (λ e.
          loop_ends fuel _ (see_service sys domain r.service_name (pause sys s)).1 (omega arith))
        (λ e. e)

  -- The service is looked at, and again 50 ms after each look that finds it present: as often as the
  -- result says, and what was seen last is what it holds. The time waited is 50 ms for each look
  -- after the first and never over 1000 ms. After a bootout, the service is no longer present unless
  -- the whole 1000 ms were waited.
  pub service_after_bootout-waits :
      (s : Stage W)
      → (let end = service_after_bootout sys r domain true s in
          (IsCounted end.0 × Polls s end.0.reads end.0.observation end.1)
          × (is_present end.0.observation.presence ≡ true → end.0.waited_ms ≡ 1000))
  unfolding service_after_bootout
  service_after_bootout-waits s =
      let seen = see_service sys domain r.service_name s in
      let start : Teardown = record { observation = seen.0; reads = 1; waited_ms = 0 } in
      let good =
        loop_keeps 20 s start seen.1 ((omega arith, omega arith), ((refl, (refl, refl)), once)) in
      let last = (teardown_loop sys r 20 domain start seen.1).0 in
      (
        (good.0, good.1.1),
        λ p. omega (
          arith,
          good.0.1,
          full (is_present last.observation.presence) last.waited_ms
              (loop_ends 20 start seen.1 (omega arith)) p,
        ),
      )

  pub service_after_bootout-LastSight :
      (b : Bool) (s : Stage W)
      → (let end = service_after_bootout sys r domain b s in
          LastSight domain r.service_name end.0.observation end.1.1)
  unfolding service_after_bootout
  service_after_bootout-LastSight true s =
      let seen = see_service sys domain r.service_name s in
      (loop_keeps 20 s (record { observation = seen.0; reads = 1; waited_ms = 0 }) seen.1
        ((omega arith, omega arith), ((refl, (refl, refl)), once))).1.0
  service_after_bootout-LastSight false s = (refl, (refl, refl))
