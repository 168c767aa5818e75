-- ===== src/RunnerSelect/Parse.antt =====
-- controller/src/runner_select.rs: the reading of a request's runner selector.
pub mod Held
pub mod Reading
pub mod Strip
use policy_witness.Base.{
  ℕ, suc, zero, ◌+◌, Bool, true, false, not, ◌&&◌, ◌||◌, Option, none, some, List, [], ◌∷◌, ◌++◌,
  if◌then◌else◌, leb, length, is_some, is_empty, any, Bytes, codes, bytes_eq, ResultOf, ok, err,
  Result, ◌>>=◌, map_err, map_ok, unwrap_or, decimal, or_else,
}
use policy_witness.Json.{
  Value, null, boolean, number, string, array, object, Items, nil, item, Fields, end, field, lookup,
  remove,
}
use policy_witness.RequestPatch.{RequestError, Request, new_error}
use policy_witness.RunnerManager.{RunnerKind}
use policy_witness.RunnerManager.Kinds.{parse_kind}
use policy_witness.RunnerSelect.{RunnerSelector, selector_problem}

-- `SELECTOR_FIELDS`.
abbrev pub selector_fields : List Bytes
selector_fields =
    codes "runner"
    ∷ codes "runner_id"
    ∷ codes "runner_service"
    ∷ codes "required_entitlements"
    ∷ codes "runner_mode"
    ∷ []

unfoldable pub selector_error : Bytes → Bytes → List Bytes → Bytes → RequestError
selector_error code prefix suffix message =
    new_error code (if is_empty prefix then suffix else codes "runner" ∷ suffix) message

-- `selector_string`, over what the object has at the key.
unfoldable pub string_field : Bytes → Bytes → Option Value → Request (Option Bytes)
unfolding selector_error
string_field key path none = ok none
string_field key path (some null) = ok none
string_field key path (some (string value)) = ok (some value)
string_field key path (some _) = err (
    selector_error (codes "type_mismatch") path (key ∷ [])
      (path ++ (key ++ codes " must be a string or null")))

unfoldable pub selector_string : Fields → Bytes → Bytes → Request (Option Bytes)
unfolding lookup string_field
selector_string fields key path = string_field key path (lookup key fields)

abbrev pub required_key : Bytes
required_key = codes "required_entitlements"

-- An item of the array, by its index.
unfoldable pub entitlement_item : Bytes → ℕ → Value → Request Bytes
unfolding selector_error decimal
entitlement_item path i (string value) = ok value
entitlement_item path i _ = err (
    selector_error (codes "type_mismatch") path (required_key ∷ decimal i ∷ [])
      (path ++ (required_key ++ (codes "[" ++ (decimal i ++ codes "] must be a string")))))

unfoldable pub entitlement_items : Bytes → ℕ → Items → Request (List Bytes)
unfolding entitlement_item
entitlement_items path i nil = ok []
entitlement_items path i (item v rest) = do
  first ← entitlement_item path i v
  later ← entitlement_items path (i + 1) rest
  ok (first ∷ later)

unfoldable pub entitlements_field : Bytes → Option Value → Request (Option (List Bytes))
unfolding entitlement_items selector_error
entitlements_field path none = ok none
entitlements_field path (some null) = ok none
entitlements_field path (some (array items)) = map_ok some (entitlement_items path 0 items)
entitlements_field path (some _) = err (
    selector_error (codes "type_mismatch") path (required_key ∷ [])
      (path ++ (required_key ++ codes " must be an array of strings or null")))

unfoldable pub selector_entitlements : Fields → Bytes → Request (Option (List Bytes))
unfolding lookup entitlements_field
selector_entitlements fields path = entitlements_field path (lookup required_key fields)

unfoldable pub refuse_problem : RunnerSelector → Option Bytes → Request RunnerSelector
refuse_problem selector none = ok selector
refuse_problem selector (some problem) = err (new_error (codes "conflicting_selector") [] problem)

unfoldable pub checked_selector : RunnerSelector → Request RunnerSelector
unfolding selector_problem refuse_problem
checked_selector selector = refuse_problem selector (selector_problem selector)

-- The keys of the `runner` object that are known.
abbrev pub runner_keys : List Bytes
runner_keys = codes "id" ∷ codes "service" ∷ codes "required_entitlements" ∷ codes "mode" ∷ []

unfoldable pub strip_keys : List Bytes → Fields → Fields
unfolding remove
strip_keys [] fields = fields
strip_keys (key ∷ keys) fields = strip_keys keys (remove key fields)

unfoldable pub strip_runner_selector : Value → Value
unfolding strip_keys
strip_runner_selector (object fields) = object (strip_keys selector_fields fields)
strip_runner_selector value = value

-- `if let Some(new)`: the new value, if there is one.
abbrev pub prefer {ℓ} : {A : Type ℓ} → Option A → Option A → Option A
prefer none old = old
prefer (some new) old = some new

-- `debug` is the {:?} form of a text.
module _ (debug : Bytes → Bytes) where
  unfoldable pub parse_runner_mode : Bytes → Bytes → Result RunnerKind
  unfolding parse_kind bytes_eq
  parse_runner_mode value name =
      if bytes_eq value (codes "machme")
      then err (name ++ codes "=\"machme\" is not supported; use \"byoxpc\"")
      else elim (parse_kind value) [
        | some kind ↦ ok kind
        | none ↦ err (
            codes "invalid "
            ++ (name
                ++ (codes " value: "
                    ++ (if leb (length value) 63
                        then debug value
                        else codes "<unreported_value>"))))
      ]

  -- A mode that is given is parsed, with its error located at `path`.
  unfoldable pub mode_field : List Bytes → Bytes → Option Bytes → Request (Option RunnerKind)
  unfolding parse_runner_mode
  mode_field path name none = ok none
  mode_field path name (some value) =
      map_ok some
        (map_err (λ e. new_error (codes "invalid_value") path e) (parse_runner_mode value name))

  -- The loop over the keys of the `runner` object.
  unfoldable pub check_keys : Fields → Request (Unit {0})
  unfolding any bytes_eq
  check_keys end = ok tt
  check_keys (field key v rest) =
      let later = check_keys rest in
      if not (any (λ k. bytes_eq k key) runner_keys)
      then err (
          new_error (codes "unknown_field") (codes "runner" ∷ key ∷ []) (
            codes "unknown field in runner: "
            ++ (if leb (length key) 63 then debug key else codes "<unreported_key>")))
      else later

  -- The fields of the root, or of the `runner` object.
  unfoldable pub root_selector : Fields → Request RunnerSelector
  unfolding selector_string selector_entitlements mode_field
  root_selector root = do
    id ← selector_string root (codes "runner_id") []
    service ← selector_string root (codes "runner_service") []
    entitlements ← selector_entitlements root []
    mode_text ← selector_string root (codes "runner_mode") []
    mode ← mode_field (codes "runner_mode" ∷ []) (codes "runner_mode") mode_text
    ok (record {
      runner_id = id;
      runner_service = service;
      required_entitlements = unwrap_or entitlements [];
      mode = mode;
    })

  unfoldable pub nested_selector : Fields → RunnerSelector → Request RunnerSelector
  unfolding check_keys selector_string selector_entitlements mode_field checked_selector
  nested_selector runner selector = do
    known ← check_keys runner
    id ← selector_string runner (codes "id") (codes "runner.")
    service ← selector_string runner (codes "service") (codes "runner.")
    entitlements ← selector_entitlements runner (codes "runner.")
    mode_text ← selector_string runner (codes "mode") (codes "runner.")
    mode ← mode_field (codes "runner" ∷ codes "mode" ∷ []) (codes "runner.mode") mode_text
    checked_selector (record {
      runner_id = prefer id selector.runner_id;
      runner_service = prefer service selector.runner_service;
      required_entitlements = unwrap_or entitlements selector.required_entitlements;
      mode = prefer mode selector.mode;
    })

  -- `match root.get("runner")`.
  unfoldable pub with_runner : Option Value → RunnerSelector → Request RunnerSelector
  unfolding nested_selector checked_selector
  with_runner none selector = checked_selector selector
  with_runner (some null) selector = checked_selector selector
  with_runner (some (object runner)) selector = nested_selector runner selector
  with_runner (some _) selector = err (
      new_error (codes "type_mismatch") (codes "runner" ∷ [])
        (codes "runner must be a JSON object or null"))

  unfoldable pub parse_runner_selector_value : Value → Request RunnerSelector
  unfolding root_selector with_runner lookup
  parse_runner_selector_value (object root) = do
    selector ← root_selector root
    with_runner (lookup (codes "runner") root) selector
  parse_runner_selector_value value =
      err (new_error (codes "type_mismatch") [] (codes "request.json must be a JSON object"))
