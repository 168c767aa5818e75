-- ===== src/RequestPatch.antt =====
-- controller/src/request_patch.rs: the reading of a request, and the errors that refuse it.
-- serde_json's parser and its numbers are a parameter (`RequestReader`).
pub mod Refusals
mod Tests
use policy_witness.Base.{
  ℕ, Bool, true, false, not, ◌&&◌, Option, none, some, List, [], ◌∷◌, ◌++◌, if◌then◌else◌, leb,
  length, all, Bytes, codes, bytes_eq, ResultOf, ok, err, Result, map_err, ◌>>=◌, decimal,
}
use policy_witness.Json.{
  Value, null, boolean, number, string, array, object, get, is_object, is_null,
}

pub record RequestFailure : Type 0 where
  pub code : Bytes
  pub path : Option (List Bytes)
  pub expected_schema : Option ℕ

pub record RequestError : Type 0 where
  pub failure : RequestFailure
  pub message : Bytes

abbrev pub request_schema_version : ℕ
request_schema_version = 6

unfoldable pub is_schema_path : List Bytes → Bool
unfolding bytes_eq
is_schema_path (part ∷ []) = bytes_eq part (codes "schema_version")
is_schema_path _ = false

-- `RequestError::new`.
unfoldable pub new_error : Bytes → List Bytes → Bytes → RequestError
unfolding all is_schema_path
new_error code path message = record {
  failure = record {
    code = code;
    path =
        if leb (length path) 8 && all (λ part. leb (length part) 63) path then some path else none;
    expected_schema = if is_schema_path path then some request_schema_version else none;
  };
  message = message;
}

-- What the module takes from serde_json. A number is whole when `as_f64` gives it and the fraction
-- is 0, and `equals` compares that value with an integer.
pub record RequestReader : Type 0 where
  pub from_str : Bytes → Result Value
  pub is_whole : Bytes → Bool
  pub equals : Bytes → ℕ → Bool
  pub display : Bytes → Bytes

abbrev pub Request : Type 0 → Type 0
Request A = ResultOf RequestError A

unfoldable pub require_object : Value → Request Value
require_object value =
    if not (is_object value)
    then err (
        new_error (if is_null value then codes "missing_value" else codes "type_mismatch") []
          (codes "request.json must be a JSON object"))
    else ok value

unfoldable pub version_missing : Bytes → Request (Unit {0})
unfolding decimal
version_missing code = err (
    new_error code (codes "schema_version" ∷ []) (
      codes "schema_version must be an integer (expected "
      ++ (decimal request_schema_version ++ codes ")")))

module _ (reader : RequestReader) where
  unfoldable pub parse_request : Bytes → Request Value
  unfolding require_object
  parse_request text = do
    value ←
        map_err
          (λ e. new_error (codes "invalid_json") [] (codes "failed to parse request.json: " ++ e))
          (reader.from_str text)
    require_object value

  unfoldable pub version_of_number : Bytes → Request (Unit {0})
  unfolding version_missing decimal
  version_of_number version =
      if reader.is_whole version
      then (if reader.equals version request_schema_version
          then ok tt
          else err (
              new_error (codes "unsupported_schema") (codes "schema_version" ∷ []) (
                codes "unsupported request schema "
                ++ (reader.display version
                    ++ (codes " (expected " ++ (decimal request_schema_version ++ codes ")"))))))
      else version_missing (codes "type_mismatch")

  -- The arms of `match value.get("schema_version")`.
  unfoldable pub version_at : Option Value → Request (Unit {0})
  unfolding version_of_number version_missing
  version_at (some (number version)) = version_of_number version
  version_at none = version_missing (codes "missing_field")
  version_at (some null) = version_missing (codes "missing_value")
  version_at _ = version_missing (codes "type_mismatch")

  unfoldable pub validate_request_version : Value → Request (Unit {0})
  unfolding version_at get
  validate_request_version value = version_at (get (codes "schema_version") value)
