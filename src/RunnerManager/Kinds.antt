-- ===== src/RunnerManager/Kinds.antt =====
-- controller/src/runner_manager.rs: the names of kinds and scopes, the protocol of a record, and
-- the reading of an entitlement dictionary.
use policy_witness.Base.{
  ℕ, Bool, true, false, Option, none, some, List, [], ◌∷◌, ◌++◌, ◌==◌, if◌then◌else◌, Bytes, codes,
  bytes_eq, Result, ok, err, decimal, sort, bytes_order,
}
use policy_witness.Json.{Value, boolean, object, Fields, end, field}
use policy_witness.RunnerManager.{
  RunnerKind, standard, byoxpc, RunnerScope, user, system, RunnerEntitlements,
}

abbrev pub runner_protocol_version : ℕ
runner_protocol_version = 3

-- `RunnerKind::parse`.
unfoldable pub parse_kind : Bytes → Option RunnerKind
unfolding bytes_eq
parse_kind value =
    if bytes_eq value (codes "standard")
    then some standard
    else if bytes_eq value (codes "byoxpc")
    then some byoxpc
    else none

-- `RunnerKind::as_str`.
unfoldable pub kind_text : RunnerKind → Bytes
kind_text standard = codes "standard"
kind_text byoxpc = codes "byoxpc"

-- `RunnerScope::parse`.
unfoldable pub parse_scope : Bytes → Option RunnerScope
unfolding bytes_eq
parse_scope value =
    if bytes_eq value (codes "user")
    then some user
    else if bytes_eq value (codes "system")
    then some system
    else none

unfoldable pub require_current_protocol : ℕ → Result (Unit {0})
unfolding decimal
require_current_protocol version =
    if version == runner_protocol_version
    then ok tt
    else err (
        codes "runner advertises protocol "
        ++ (decimal version
            ++ (codes "; this client requires protocol "
                ++ (decimal runner_protocol_version
                    ++ codes "; upgrade and reinstall the runner"))))

unfoldable pub keys_of : Fields → List Bytes
keys_of end = []
keys_of (field key v rest) = key ∷ keys_of rest

abbrev pub is_true : Value → Bool
is_true (boolean true) = true
is_true _ = false

-- The keys whose value is the boolean `true`.
unfoldable pub granted_of : Fields → List Bytes
granted_of end = []
granted_of (field key v rest) =
    let later = granted_of rest in if is_true v then key ∷ later else later

unfoldable pub entitlements_from_json : Value → RunnerEntitlements
unfolding keys_of granted_of
entitlements_from_json (object fields) = record {
  raw_plist = none;
  keys = sort (keys_of fields);
  granted = sort (granted_of fields);
  error = none;
}
entitlements_from_json _ = record { raw_plist = none; keys = []; granted = []; error = none }
