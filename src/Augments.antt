-- ===== src/Augments.antt =====
-- controller/src/augments.rs: the named fragments that are appended to a policy's source. The files
-- of the fragments, the digest and the {:?} form are a parameter (`AugmentSystem`).
pub mod Spliced
pub mod Outcome
pub mod Actors
mod Tests
use policy_witness.Base.{
  ℕ, ◌+◌, Bool, true, false, not, ◌&&◌, ◌||◌, Option, none, some, List, [], ◌∷◌, ◌++◌, ◌==◌,
  if◌then◌else◌, leb, length, all, is_empty, Bytes, codes, bytes_eq, join, ResultOf, ok, err, ◌>>=◌,
  decimal,
}
use policy_witness.Json.{
  Value, null, boolean, number, string, array, object, Items, nil, item, Fields, lookup, remove,
  insert, get, get_in, as_str, set_at, as_object,
}
use policy_witness.RequestPatch.{RequestError, new_error}

pub record PolicyAugmentation : Type 0 where
  pub applied : List Bytes
  pub original_sha256 : Bytes
  pub applied_sha256 : Bytes

pub data AugmentResolution : Type 0 where
  not_present stripped_no_op : AugmentResolution
  applied : PolicyAugmentation → AugmentResolution
  bad_request : RequestError → AugmentResolution

-- `fragment` is what `read_to_string` finds at a path.
pub record AugmentSystem : Type 0 where
  pub fragment : Bytes → Option Bytes
  pub path_join : Bytes → Bytes → Bytes
  pub sha256_hex : Bytes → Bytes
  pub debug : Bytes → Bytes

abbrev pub max_reported_augment_name_bytes : ℕ
max_reported_augment_name_bytes = 127

unfoldable pub reportable_name : (Bytes → Bytes) → Bytes → Bytes
unfolding decimal
reportable_name debug name =
    if leb (length name) max_reported_augment_name_bytes
    then debug name
    else codes "<unreported: " ++ (decimal (length name) ++ codes " bytes>")

-- `is_ascii_alphanumeric() || c == '_'`. A character that is not ASCII has no such byte.
unfoldable pub is_name_byte : ℕ → Bool
is_name_byte c =
    (leb b'0' c && leb c b'9')
    || ((leb b'A' c && leb c b'Z') || ((leb b'a' c && leb c b'z') || c == b'_'))

unfoldable pub is_valid_augment_name : Bytes → Bool
unfolding all is_name_byte
is_valid_augment_name name = not (is_empty name) && all is_name_byte name

-- A step of `resolve_policy_augments` that may return early.
abbrev pub Step : Type 0 → Type 0
Step A = ResultOf AugmentResolution A

unfoldable pub refuse : {A : Type 0} → List Bytes → Bytes → List Bytes → Bytes → Step A
refuse path code suffix message = err (bad_request (new_error code (path ++ suffix) message))

abbrev pub location : List Bytes → Bytes
location path = join (codes ".") path

unfoldable pub name_item : List Bytes → ℕ → Value → Step Bytes
unfolding refuse decimal join
name_item path i (string name) = ok name
name_item path i _ =
    refuse path (codes "type_mismatch") (codes "augments" ∷ decimal i ∷ [])
      (location path ++ (codes ".augments[" ++ (decimal i ++ codes "] must be a string")))

unfoldable pub name_items : List Bytes → ℕ → Items → Step (List Bytes)
unfolding name_item
name_items path i nil = ok []
name_items path i (item v rest) = do
  first ← name_item path i v
  later ← name_items path (i + 1) rest
  ok (first ∷ later)

abbrev pub some_names : List Bytes → Step (List Bytes)
some_names [] = err stripped_no_op
some_names (name ∷ names) = ok (name ∷ names)

-- `match augments_field`, and the test for an empty list.
unfoldable pub augment_names : List Bytes → Value → Step (List Bytes)
unfolding name_items refuse join
augment_names path null = err stripped_no_op
augment_names path (array items) = do names ← name_items path 0 items; some_names names
augment_names path _ =
    refuse path (codes "type_mismatch") (codes "augments" ∷ [])
      (location path ++ codes ".augments must be an array of strings")

unfoldable pub source_code : Option Value → Bytes
source_code none = codes "missing_policy_source"
source_code (some null) = codes "missing_policy_source"
source_code (some _) = codes "type_mismatch"

unfoldable pub policy_source : List Bytes → Option Value → Step Bytes
unfolding refuse source_code join
policy_source path (some (string source)) = ok source
policy_source path o = refuse path (source_code o) (codes "sbpl_source" ∷ []) (
    location path
    ++ (codes ".sbpl_source must be a string when "
        ++ (location path ++ codes ".augments is nonempty")))

-- A splice before it is made: the names, the source and what is appended to it.
pub record Splice : Type 0 where
  pub names : List Bytes
  pub source : Bytes
  pub appended : Bytes

module _ (sys : AugmentSystem) where
  -- Every name is tested before any file is read.
  unfoldable pub check_names : List Bytes → ℕ → List Bytes → Step (Unit {0})
  unfolding is_valid_augment_name reportable_name refuse decimal
  check_names path i [] = ok tt
  check_names path i (name ∷ names) =
      let later = check_names path (i + 1) names in
      if not (is_valid_augment_name name)
      then refuse path (codes "invalid_value") (codes "augments" ∷ decimal i ∷ []) (
          codes "invalid augment name "
          ++ (reportable_name sys.debug name
              ++ codes " (must be ASCII alphanumeric or underscore)"))
      else later

  unfoldable pub augments_dir : Bytes → Bytes
  augments_dir app_root =
      sys.path_join (sys.path_join (sys.path_join app_root (codes "Contents")) (codes "Resources"))
        (codes "Augments")

  unfoldable pub augment_path : Bytes → Bytes → Bytes
  unfolding augments_dir
  augment_path app_root name = sys.path_join (augments_dir app_root) (name ++ codes ".sb")

  unfoldable pub read_augment : List Bytes → ℕ → Bytes → Option Bytes → Step Bytes
  unfolding refuse reportable_name decimal
  read_augment path i name (some contents) = ok contents
  read_augment path i name none =
      refuse path (codes "augment_unavailable") (codes "augments" ∷ decimal i ∷ [])
        (codes "unknown augment " ++ reportable_name sys.debug name)

  -- What is appended: each fragment behind a newline.
  unfoldable pub read_augments : List Bytes → Bytes → ℕ → List Bytes → Step Bytes
  unfolding read_augment augment_path
  read_augments path app_root i [] = ok []
  read_augments path app_root i (name ∷ names) = do
    contents ← read_augment path i name (sys.fragment (augment_path app_root name))
    later ← read_augments path app_root (i + 1) names
    ok (b'\n' ∷ contents ++ later)

  unfoldable pub splice : List Bytes → Bytes → Value → Fields → Step Splice
  unfolding augment_names policy_source lookup check_names read_augments
  splice path app_root field_value policy = do
    names ← augment_names path field_value
    source ← policy_source path (lookup (codes "sbpl_source") policy)
    valid ← check_names path 0 names
    appended ← read_augments path app_root 0 names
    ok (record { names = names; source = source; appended = appended })

  -- An early return leaves the policy as it is by then; a splice rewrites its source.
  unfoldable pub settle : Fields → Step Splice → AugmentResolution × Fields
  unfolding insert
  settle policy (err resolution) = (resolution, policy)
  settle policy (ok s) =
      let applied_source = s.source ++ s.appended in
      let augmentation : PolicyAugmentation = record {
        applied = s.names;
        original_sha256 = sys.sha256_hex s.source;
        applied_sha256 = sys.sha256_hex applied_source;
      } in
      (applied augmentation, insert (codes "sbpl_source") (string applied_source) policy)

  -- `match policy.remove("augments")`.
  unfoldable pub resolve_removed :
      List Bytes → Bytes → Option Value → Fields → AugmentResolution × Fields
  unfolding splice settle remove
  resolve_removed path app_root none policy = (not_present, policy)
  resolve_removed path app_root (some field_value) policy =
      let rest = remove (codes "augments") policy in
      settle rest (splice path app_root field_value rest)

  unfoldable pub resolve_policy_augments : List Bytes → Bytes → Fields → AugmentResolution × Fields
  unfolding resolve_removed lookup
  resolve_policy_augments path app_root policy =
      resolve_removed path app_root (lookup (codes "augments") policy) policy

  -- The policy object, changed where it stands in its parent.
  unfoldable pub resolve_in :
      List Bytes → Bytes → Bytes → Fields → Option Value → AugmentResolution × Fields
  unfolding resolve_policy_augments set_at
  resolve_in path app_root key parent (some (object policy)) =
      let done = resolve_policy_augments path app_root policy in
      (done.0, set_at key (object done.1) parent)
  resolve_in path app_root key parent _ = (not_present, parent)

  unfoldable pub resolve_augments : Bytes → Value → AugmentResolution × Value
  unfolding resolve_in lookup
  resolve_augments app_root (object root) =
      let done =
        resolve_in (codes "policy" ∷ []) app_root (codes "policy") root
          (lookup (codes "policy") root) in
      (done.0, object done.1)
  resolve_augments app_root value = (not_present, value)

pub record ActorAugmentResolution : Type 0 where
  pub index : ℕ
  pub actor_id : Option Bytes
  pub mode : Option Bytes
  pub original_source : Option Bytes
  pub selected_source : Option Bytes
  pub resolution : AugmentResolution

abbrev pub is_refused : AugmentResolution → Bool
is_refused (bad_request _) = true
is_refused _ = false

-- `actor.get_mut("sandbox").get_mut("policy").as_object_mut()`.
abbrev pub sandbox_policy : Option Value → Option Fields
sandbox_policy (some (object sandbox)) = as_object (lookup (codes "policy") sandbox)
sandbox_policy _ = none

abbrev pub set_sandbox : Fields → Option Value → Value
set_sandbox policy (some (object sandbox)) =
    object (set_at (codes "policy") (object policy) sandbox)
set_sandbox policy (some sandbox) = sandbox
set_sandbox policy none = null

-- The actor with that policy.
unfoldable pub set_policy : Fields → Value → Value
unfolding lookup set_at
set_policy policy (object actor) =
    object (set_at (codes "sandbox") (set_sandbox policy (lookup (codes "sandbox") actor)) actor)
set_policy policy actor = actor

module _ (sys : AugmentSystem) (app_root : Bytes) where
  abbrev pub unresolved : ℕ → Value → ActorAugmentResolution
  unresolved index actor = record {
    index = index;
    actor_id = as_str (get (codes "actor_id") actor);
    mode = as_str (get_in (codes "mode") (get (codes "sandbox") actor));
    original_source = none;
    selected_source = none;
    resolution = not_present;
  }

  -- One actor, with the policy object that it has.
  unfoldable pub resolve_actor : ℕ → Value → Option Fields → ActorAugmentResolution × Value
  unfolding resolve_policy_augments lookup as_str get get_in set_policy decimal
  resolve_actor index actor none = (unresolved index actor, actor)
  resolve_actor index actor (some policy) =
      let path = codes "actors" ∷ decimal index ∷ codes "sandbox" ∷ codes "policy" ∷ [] in
      let done = resolve_policy_augments sys path app_root policy in
      (
        record (unresolved index actor) {
          original_source = as_str (lookup (codes "sbpl_source") policy);
          selected_source = as_str (lookup (codes "sbpl_source") done.1);
          resolution = done.0;
        },
        set_policy done.1 actor,
      )

  -- The loop: in order, up to the first refusal.
  unfoldable pub resolve_actors : ℕ → Items → List ActorAugmentResolution × Items
  unfolding resolve_actor get
  resolve_actors index nil = ([], nil)
  resolve_actors index (item actor rest) =
      let done = resolve_actor index actor (sandbox_policy (get (codes "sandbox") actor)) in
      let later = resolve_actors (index + 1) rest in
      if is_refused done.0.resolution
      then (done.0 ∷ [], item done.1 rest)
      else (done.0 ∷ later.0, item done.1 later.1)

  unfoldable pub resolve_actor_list : Fields → Option Value → List ActorAugmentResolution × Value
  unfolding resolve_actors set_at
  resolve_actor_list root (some (array actors)) =
      let done = resolve_actors 0 actors in
      (done.0, object (set_at (codes "actors") (array done.1) root))
  resolve_actor_list root _ = ([], object root)

  unfoldable pub resolve_actor_augments : Value → List ActorAugmentResolution × Value
  unfolding resolve_actor_list lookup
  resolve_actor_augments (object root) = resolve_actor_list root (lookup (codes "actors") root)
  resolve_actor_augments value = ([], value)
