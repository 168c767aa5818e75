-- ===== src/Augments/Actors.antt =====
-- The resolution of every actor's augments, `resolve_actor_augments` of controller/src/augments.rs.
use policy_witness.Base.{
  ℕ, ◌+◌, false, Option, none, some, List, [], ◌∷◌, if_rule, Bytes, codes, bytes_eq, decimal, ◌≡◌,
  refl, sym, subst, ap, true, inl, inr, ◌⊎◌,
}
use policy_witness.Json.{
  Value, null, boolean, number, string, array, object, Items, nil, item, Fields, lookup, remove,
  get, lookup-remove, lookup-set_at, set_at, as_object,
}
use policy_witness.Augments.{
  AugmentResolution, not_present, stripped_no_op, applied, bad_request, AugmentSystem,
  ActorAugmentResolution, is_refused, sandbox_policy, set_sandbox, set_policy,
  resolve_policy_augments, resolve_actor, resolve_actors,
}
use policy_witness.Augments.Outcome.{Outcome, resolve_policy_augments-Outcome}

abbrev pub policy_of : Value → Option Fields
policy_of actor = sandbox_policy (get (codes "sandbox") actor)

as_object_lem :
    (o : Option Value) (fields : Fields) → as_object o ≡ some fields → o ≡ some (object fields)
unfolding as_object
as_object_lem (some (object f)) fields h =
    let same : f ≡ fields = cc in ap (λ f. some (object f)) same
as_object_lem none fields h = cc
as_object_lem (some null) fields h = cc
as_object_lem (some (boolean b)) fields h = cc
as_object_lem (some (number b)) fields h = cc
as_object_lem (some (string b)) fields h = cc
as_object_lem (some (array b)) fields h = cc

policy_of-set_policy :
    (policy after : Fields) (actor : Value)
    → policy_of actor ≡ some policy
    → policy_of (set_policy after actor) ≡ some after
unfolding get set_policy as_object bytes_eq
policy_of-set_policy policy after (object actor) h = go (lookup (codes "sandbox") actor) refl h
  where
    go :
        (o : Option Value)
        → lookup (codes "sandbox") actor ≡ o
        → sandbox_policy o ≡ some policy
        → sandbox_policy
            (lookup (codes "sandbox") (set_at (codes "sandbox") (set_sandbox after o) actor))
          ≡ some after
    go (some (object sandbox)) at h =
        let changed = object (set_at (codes "policy") (object after) sandbox) in
        let outer =
          lookup-set_at (codes "sandbox") (codes "sandbox") changed (object sandbox) actor at in
        let inner =
          lookup-set_at (codes "policy") (codes "policy") (object after) (object policy) sandbox
            (as_object_lem (lookup (codes "policy") sandbox) policy h) in
        subst (λ o. sandbox_policy o ≡ some after) (sym outer) (ap as_object inner)
    go none at h = cc
    go (some null) at h = cc
    go (some (boolean b)) at h = cc
    go (some (number b)) at h = cc
    go (some (string b)) at h = cc
    go (some (array b)) at h = cc
policy_of-set_policy policy after null h = cc
policy_of-set_policy policy after (boolean b) h = cc
policy_of-set_policy policy after (number b) h = cc
policy_of-set_policy policy after (string b) h = cc
policy_of-set_policy policy after (array b) h = cc

module _ (sys : AugmentSystem) (app_root : Bytes) where
  -- The result for one actor, by the policy object that it has: an actor without one stays as it is;
  -- else its policy is replaced by what its resolution says.
  abbrev pub ResolvesTo : Option Fields → Value → ActorAugmentResolution → Value → Type 0
  ResolvesTo none actor r after = (after ≡ actor) × (r.resolution ≡ not_present)
  ResolvesTo (some policy) actor r after =
      (resolved : Fields) × ((policy_of after ≡ some resolved)
        × (Outcome sys app_root policy r.resolution resolved
            × (lookup (codes "augments") resolved ≡ none)))

  -- The actors from an index on, their entries, and the actors after: each is resolved, in order, up
  -- to the first refusal, and what is behind that is as it was.
  abbrev pub Course : ℕ → Items → List ActorAugmentResolution → Items → Type 0
  Course index nil [] nil = Unit
  Course index (item a rest) (r ∷ entries) (item b after) =
      (r.index ≡ index)
      × (ResolvesTo (policy_of a) a r b
          × (((is_refused r.resolution ≡ true) × ((entries ≡ []) × (after ≡ rest)))
              ⊎ ((is_refused r.resolution ≡ false) × Course (index + 1) rest entries after)))
  Course index _ _ _ = ⊥

  stripped_free :
      (policy : Fields) → lookup (codes "augments") (remove (codes "augments") policy) ≡ none
  unfolding bytes_eq
  stripped_free policy = lookup-remove (codes "augments") (codes "augments") policy

  Outcome-IsFree :
      (policy after : Fields) (r : AugmentResolution)
      → Outcome sys app_root policy r after
      → lookup (codes "augments") after ≡ none
  unfolding bytes_eq
  Outcome-IsFree policy after not_present h =
      subst (λ p. lookup (codes "augments") p ≡ none) (sym h.1) h.0
  Outcome-IsFree policy after stripped_no_op h =
      subst (λ p. lookup (codes "augments") p ≡ none) (sym h.1) (stripped_free policy)
  Outcome-IsFree policy after (applied a) h = h.rewritten (codes "augments")
  Outcome-IsFree policy after (bad_request e) h =
      subst (λ p. lookup (codes "augments") p ≡ none) (sym h) (stripped_free policy)

  resolve_actor-ResolvesTo :
      (index : ℕ) (actor : Value) (o : Option Fields)
      → policy_of actor ≡ o
      → (let done = resolve_actor sys app_root index actor o in
          (done.0.index ≡ index) × ResolvesTo o actor done.0 done.1)
  unfolding resolve_actor
  resolve_actor-ResolvesTo index actor none at = (refl, (refl, refl))
  resolve_actor-ResolvesTo index actor (some policy) at =
      let path = codes "actors" ∷ decimal index ∷ codes "sandbox" ∷ codes "policy" ∷ [] in
      let done = resolve_policy_augments sys path app_root policy in
      let outcome = resolve_policy_augments-Outcome sys app_root path policy in
      (
        refl,
        (
          done.1,
          (
            policy_of-set_policy policy done.1 actor at,
            (outcome, Outcome-IsFree policy done.1 done.0 outcome),
          ),
        ),
      )

  -- The actors are resolved in order, one entry with its index for each, up to and with the first
  -- refusal; the actors behind that are left as they were. An actor without a policy object stays as
  -- it is. Any other that is resolved has its policy replaced by what the resolution says, without
  -- an `augments` field.
  pub resolve_actors-Course :
      (index : ℕ) (actors : Items)
      → (let done = resolve_actors sys app_root index actors in Course index actors done.0 done.1)
  unfolding resolve_actors
  resolve_actors-Course index nil = tt
  resolve_actors-Course index (item actor rest) =
      let done = resolve_actor sys app_root index actor (policy_of actor) in
      let one = resolve_actor-ResolvesTo index actor (policy_of actor) refl in
      let ih = resolve_actors-Course (index + 1) rest in
      let later = resolve_actors sys app_root (index + 1) rest in
      if_rule (λ (x : List ActorAugmentResolution × Items). Course index (item actor rest) x.0 x.1)
        (is_refused done.0.resolution) (done.0 ∷ [], item done.1 rest)
        (done.0 ∷ later.0, item done.1 later.1) (λ t. (one.0, (one.1, inl (t, (refl, refl)))))
        (λ f. (one.0, (one.1, inr (f, ih))))
