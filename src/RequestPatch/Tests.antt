-- ===== src/RequestPatch/Tests.antt =====
-- A reader of one request text, and the theorems at it.
use policy_witness.Base.{
  true, Bytes, [], ◌∷◌, codes, bytes_eq, if◌then◌else◌, ok, err, ◌==◌, ◌≡◌, refl, ◌↔◌, some,
}
use policy_witness.Json.{Value, number, object, end, field, get, is_object}
use policy_witness.RequestPatch.{
  RequestReader, RequestError, new_error, parse_request, validate_request_version,
  request_schema_version,
}
use policy_witness.RequestPatch.Refusals.{
  IsBounded, IsVersionError, IsRootError, new_error-IsBounded, validate_request_version_lem,
  parse_request_lem,
}

abbrev request : Value
request = object (field (codes "schema_version") (number (codes "6")) end)

abbrev reader : RequestReader
reader = record {
  from_str = λ t. if bytes_eq t (codes "{}") then ok request else err (codes "EOF");
  is_whole = λ n. bytes_eq n (codes "6");
  equals = λ n k. k == 6;
  display = λ n. n;
}

accepted : validate_request_version reader request ≡ ok tt
unfolding validate_request_version
accepted = refl

new_error-IsBounded_example :
    IsBounded
      (codes "runner" ∷ [])
      (new_error (codes "type_mismatch") (codes "runner" ∷ []) []).failure.path
    × (((new_error (codes "type_mismatch") (codes "runner" ∷ []) []).failure.expected_schema
          ≡ some 6)
        ↔ (codes "runner" ∷ [] ≡ codes "schema_version" ∷ []))
new_error-IsBounded_example = new_error-IsBounded (codes "type_mismatch") [] (codes "runner" ∷ [])

validate_request_version_example :
    ((validate_request_version reader request ≡ ok tt) ↔ (
      (n : Bytes) × ((get (codes "schema_version") request ≡ some (number n))
        × ((reader.is_whole n ≡ true) × (reader.equals n request_schema_version ≡ true)))))
    × ((e : RequestError) → validate_request_version reader request ≡ err e → IsVersionError e)
validate_request_version_example = validate_request_version_lem reader request

parse_request_example :
    ((value : Value)
      → (parse_request reader (codes "{}") ≡ ok value)
        ↔ ((reader.from_str (codes "{}") ≡ ok value) × (is_object value ≡ true)))
    × ((e : RequestError) → parse_request reader (codes "{}") ≡ err e → IsRootError e)
parse_request_example = parse_request_lem reader (codes "{}")
