-- ===== src/RunnerSelect/Parse/Strip.antt =====
-- `strip_runner_selector` of controller/src/runner_select.rs.
use policy_witness.Base.{
  none, List, [], ◌∷◌, any, if◌then◌else◌, Bytes, bytes_eq, ◌≡◌, refl, arith, codes,
}
use policy_witness.Json.{Value, object, Fields, lookup, remove, lookup-remove, get}
use policy_witness.RunnerSelect.Parse.{selector_fields, strip_keys, strip_runner_selector}

lookup-strip_keys :
    (keys : List Bytes) (i : Bytes) (fields : Fields)
    → lookup i (strip_keys keys fields)
      ≡ (if any (λ k. bytes_eq k i) keys then none else lookup i fields)
unfolding strip_keys any
lookup-strip_keys [] i fields = refl
lookup-strip_keys (key ∷ keys) i fields =
    ground (arith, lookup-strip_keys keys i (remove key fields), lookup-remove i key fields)

-- The keys that a caller may choose a runner by.
abbrev pub chooser_keys : List Bytes
chooser_keys =
    codes "runner"
    ∷ codes "runner_id"
    ∷ codes "runner_service"
    ∷ codes "required_entitlements"
    ∷ codes "runner_mode"
    ∷ []

-- What is delivered of a request has none of the keys `runner`, `runner_id`, `runner_service`,
-- `required_entitlements` and `runner_mode`, and all else as it was.
pub get-strip_runner_selector :
    (i : Bytes) (value : Value)
    → get i (strip_runner_selector value)
      ≡ (if any (λ k. bytes_eq k i) chooser_keys then none else get i value)
unfolding get strip_runner_selector
get-strip_runner_selector i (object fields) = lookup-strip_keys selector_fields i fields
get-strip_runner_selector i value = ground arith
