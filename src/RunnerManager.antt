-- ===== src/RunnerManager.antt =====
-- controller/src/runner_manager.rs: runner records, the registry, and who owns an installed service.
pub mod Cleanup
pub mod Guard
pub mod Authority
pub mod Retention
pub mod Report
pub mod Teardown
pub mod Install
pub mod Kinds
mod Tests
use policy_witness.Base.{
  map, ℕ, ◌+◌, Bool, true, false, not, ◌&&◌, ◌||◌, Option, none, some, List, [], ◌∷◌, ◌++◌, ◌==◌,
  if◌then◌else◌, Bytes, codes, bytes_eq, sort, bytes_order,
}
use policy_witness.Json.{
  Value, boolean, string, array, object, Fields, item, nil, end, field, value_eq, get, get_in,
  as_str,
}

pub data RunnerKind : Type 0 where
  standard byoxpc : RunnerKind

pub data RunnerScope : Type 0 where
  user system : RunnerScope

pub data RunnerState : Type 0 where
  pending installed : RunnerState

pub record RunnerSignature : Type 0 where
  pub team_id : Option Bytes
  pub identity : Option Bytes
  pub cdhash : Option Bytes
  pub valid : Bool
  pub adhoc : Bool

pub record RunnerEntitlements : Type 0 where
  pub raw_plist : Option Bytes
  pub keys : List Bytes
  pub granted : List Bytes
  pub error : Option Bytes

pub record RunnerOwnership : Type 0 where
  pub plist_path : Bytes
  pub launchd_domain : Bytes
  pub owner_uid : ℕ
  pub plist_sha256 : Bytes

pub record RunnerRecord : Type 0 where
  pub state : RunnerState
  pub ownership : Option RunnerOwnership
  pub id : Bytes
  pub service_name : Bytes
  pub bundle_path : Bytes
  pub executable_path : Bytes
  pub bundle_id : Option Bytes
  pub scope : RunnerScope
  pub protocol_version : ℕ
  pub signature : RunnerSignature
  pub entitlements : RunnerEntitlements
  pub installed_at_unix_ms : ℕ
  pub kind : Option RunnerKind
  pub worker_signature : Option RunnerSignature
  pub worker_entitlements : Option RunnerEntitlements
  pub unentitled_worker_signature : Option RunnerSignature
  pub unentitled_worker_entitlements : Option RunnerEntitlements
  pub unentitled_worker_sha256 : Option Bytes
  pub worker_equipment_inventory : Option Value
  pub source_worker_equipment_inventory : Option Value
  pub validator_signature : Option RunnerSignature
  pub validator_entitlements : Option RunnerEntitlements
  pub issuer_signature : Option RunnerSignature
  pub issuer_entitlements : Option RunnerEntitlements

pub data Presence : Type 0 where
  present absent unknown : Presence

pub data Ownership : Type 0 where
  owned unowned ambiguous unsure : Ownership

pub record ServiceObservation : Type 0 where
  pub presence : Presence
  pub executable_path : Option Bytes
  pub error : Option Bytes

pub record PlistObservation : Type 0 where
  pub presence : Presence
  pub config : Option Value
  pub sha256 : Option Bytes
  pub owner_uid : Option ℕ
  pub regular : Bool
  pub error : Option Bytes

-- What `remove_record` notes of the system before and after its actions.
pub data CleanupObservation : Type 0 where
  before : ServiceObservation → PlistObservation → Ownership → Ownership → CleanupObservation
  after : ServiceObservation → PlistObservation → ℕ → ℕ → CleanupObservation

pub record PendingCleanup : Type 0 where
  pub runner : RunnerRecord
  pub cleanup_started_at_unix_ms : ℕ
  pub observations : List CleanupObservation

pub record RunnerRegistry : Type 0 where
  pub schema_version : ℕ
  pub runners : List RunnerRecord
  pub pending_cleanup : List PendingCleanup

abbrev pub is_absent : Presence → Bool
is_absent absent = true
is_absent _ = false

abbrev pub is_present : Presence → Bool
is_present present = true
is_present _ = false

abbrev pub is_owned : Ownership → Bool
is_owned owned = true
is_owned _ = false

-- A slice taken apart at an index.
pub record Split {ℓ} (A : Type ℓ) : Type ℓ where
  pub front : List A
  pub here : A
  pub rest : List A

abbrev pub keep_front {ℓ} : {A : Type ℓ} → A → Option (Split A) → Option (Split A)
keep_front x none = none
keep_front x (some s) = some (record s { front = x ∷ s.front })

-- `iter().position`: the first item that passes the test.
unfoldable pub position {ℓ} : {A : Type ℓ} → (A → Bool) → List A → Option (Split A)
position p [] = none
position p (x ∷ xs) =
    let later = keep_front x (position p xs) in
    if p x then some (record { front = []; here = x; rest = xs }) else later

-- `iter().find`.
unfoldable pub find {ℓ} : {A : Type ℓ} → (A → Bool) → List A → Option A
find p [] = none
find p (x ∷ xs) = let later = find p xs in if p x then some x else later

-- `RunnerRegistry::find`.
unfoldable pub find_record : RunnerRegistry → Option Bytes → Option Bytes → Option RunnerRecord
unfolding find bytes_eq
find_record registry (some id) service = find (λ r. bytes_eq r.id id) registry.runners
find_record registry none (some service) =
    find (λ r. bytes_eq r.service_name service) registry.runners
find_record registry none none = none

unfoldable pub conflicting_record : RunnerRegistry → Bytes → Bytes → Bytes → Option RunnerRecord
unfolding find bytes_eq
conflicting_record registry service bundle executable =
    find
      (λ r.
        bytes_eq r.service_name service
        || (bytes_eq r.bundle_path bundle || bytes_eq r.executable_path executable))
      (registry.runners ++ map (λ c. c.runner) registry.pending_cleanup)

-- `a.map(String::as_str) == Some(b)`.
abbrev pub is_text : Option Bytes → Bytes → Bool
is_text none b = false
is_text (some a) b = bytes_eq a b

abbrev pub is_value : Option Value → Value → Bool
is_value none v = false
is_value (some u) v = value_eq u v

abbrev pub is_number : Option ℕ → ℕ → Bool
is_number none n = false
is_number (some m) n = m == n

-- The label, arguments, service and environment of the plist are those of the record.
unfoldable pub config_matches : RunnerRecord → Value → Bool
unfolding value_eq get get_in as_str bytes_eq
config_matches r config =
    let arguments = array (
      item (string r.executable_path)
        (item (string (codes "--mach-service")) (item (string r.service_name) nil))) in
    let services = object (field r.service_name (boolean true) end) in
    is_text (as_str (get (codes "Label") config)) r.service_name
    && (is_value (get (codes "ProgramArguments") config) arguments
        && (is_value (get (codes "MachServices") config) services
            && is_text
                (as_str
                  (get_in (codes "XPC_SERVICE_PATH") (get (codes "EnvironmentVariables") config)))
                r.bundle_path))

-- What the record says of the file's owner and digest, if it says anything.
unfoldable pub ownership_matches : Option RunnerOwnership → PlistObservation → Bool
unfolding bytes_eq
ownership_matches none o = true
ownership_matches (some owned_by) o =
    is_number o.owner_uid owned_by.owner_uid && is_text o.sha256 owned_by.plist_sha256

unfoldable pub present_plist_ownership : RunnerRecord → PlistObservation → Option Value → Ownership
unfolding config_matches ownership_matches
present_plist_ownership r o none = if not o.regular then unowned else unsure
present_plist_ownership r o (some config) =
    if not o.regular
    then unowned
    else if not (config_matches r config)
    then unowned
    else if not (ownership_matches r.ownership o)
    then unowned
    else owned

unfoldable pub plist_ownership : RunnerRecord → PlistObservation → Ownership
unfolding present_plist_ownership
plist_ownership r o = elim o.presence [
  | unknown ↦ unsure
  | absent ↦ ambiguous
  | present ↦ present_plist_ownership r o o.config
]

unfoldable pub service_ownership : RunnerRecord → ServiceObservation → Ownership
unfolding bytes_eq
service_ownership r o = elim o.presence [
  | unknown ↦ unsure
  | absent ↦ ambiguous
  | present ↦ elim o.executable_path [
    | none ↦ ambiguous
    | some path ↦ if bytes_eq path r.executable_path then owned else unowned
  ]
]

unfoldable pub cleanup_complete : ServiceObservation → PlistObservation → Bool
cleanup_complete service plist = is_absent service.presence && is_absent plist.presence
