-- ===== src/Augments/Tests.antt =====
-- A store with one fragment, and the theorems at it.
use policy_witness.Base.{none, some, [], ◌∷◌, ◌++◌, codes, bytes_eq, if◌then◌else◌, ◌≡◌, refl}
use policy_witness.Json.{Value, null, string, array, object, Items, nil, item, Fields, end, field}
use policy_witness.Augments.{AugmentSystem, resolve_policy_augments, resolve_actors}
use policy_witness.Augments.Outcome.{Outcome, resolve_policy_augments-Outcome}
use policy_witness.Augments.Actors.{Course, resolve_actors-Course}

abbrev store : AugmentSystem
store = record {
  fragment = λ p.
      if bytes_eq p (codes "/Contents/Resources/Augments/net.sb") then some (codes "B") else none;
  path_join = λ base name. base ++ (b'/' ∷ name);
  sha256_hex = λ text. text;
  debug = λ text. text;
}

abbrev policy_with : Value → Fields
policy_with augments =
    field (codes "augments") augments (field (codes "sbpl_source") (string (codes "A")) end)

abbrev one_name : Value
one_name = array (item (string (codes "net")) nil)

abbrev spliced : Fields
spliced = field (codes "sbpl_source") (string (b'A' ∷ b'\n' ∷ b'B' ∷ [])) end

splices_net : (resolve_policy_augments store [] [] (policy_with one_name)).1 ≡ spliced
unfolding resolve_policy_augments
splices_net = refl

abbrev actor_with : Value → Value
actor_with augments = object (
    field (codes "sandbox") (object (field (codes "policy") (object (policy_with augments)) end))
      end)

abbrev two_actors : Items
two_actors = item (actor_with one_name) (item (actor_with null) nil)

resolve_policy_augments-Outcome_example :
    (let done = resolve_policy_augments store [] [] (policy_with one_name) in
      Outcome store [] (policy_with one_name) done.0 done.1)
resolve_policy_augments-Outcome_example =
    resolve_policy_augments-Outcome store [] [] (policy_with one_name)

resolve_actors-Course_example :
    (let done = resolve_actors store [] 0 two_actors in Course store [] 0 two_actors done.0 done.1)
resolve_actors-Course_example = resolve_actors-Course store [] 0 two_actors
