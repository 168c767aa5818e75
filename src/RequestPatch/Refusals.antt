-- ===== src/RequestPatch/Refusals.antt =====
-- What the errors of controller/src/request_patch.rs report, and which requests are refused.
use policy_witness.Base.{
  ◌≤◌, true, Option, none, some, List, [], ◌∷◌, leb, length, all, All, Bytes, codes, bytes_eq,
  bytes_eq_iff, ok, err, ◌≡◌, refl, ◌↔◌, inl, inr, arith, Bool-cases, Result-cases, err_injective,
  ok_injective, subst, sym, ap,
}
use policy_witness.Json.{Value, null, boolean, number, string, array, object, get, is_object}
use policy_witness.RequestPatch.{
  RequestError, RequestReader, request_schema_version, is_schema_path, new_error, require_object,
  parse_request, version_missing, version_of_number, version_at, validate_request_version,
}

-- A reported location is the whole path, of at most 8 parts of at most 63 bytes.
abbrev pub IsBounded : List Bytes → Option (List Bytes) → Type 0
IsBounded path none = ¬ ((length path ≤ 8) × All (λ part. length part ≤ 63) path)
IsBounded path (some reported) =
    (reported ≡ path) × (length path ≤ 8) × All (λ part. length part ≤ 63) path

parts_short_iff :
    (path : List Bytes)
    → (all (λ part. leb (length part) 63) path ≡ true) ↔ All (λ part. length part ≤ 63) path
unfolding all
parts_short_iff [] = ground arith
parts_short_iff (p ∷ path) = ground (arith, parts_short_iff path)

schema_path_iff :
    (path : List Bytes) → (is_schema_path path ≡ true) ↔ (path ≡ codes "schema_version" ∷ [])
unfolding is_schema_path
schema_path_iff [] = ground arith
schema_path_iff (p ∷ []) = ground (arith, bytes_eq_iff p (codes "schema_version"))
schema_path_iff (p ∷ q ∷ path) = ground arith

-- An error reports its location exactly when that has at most 8 parts of at most 63 bytes, and then
-- in full; it names the schema that is expected exactly when the location is the schema's marker.
pub new_error-IsBounded :
    (code message : Bytes) (path : List Bytes)
    → IsBounded path (new_error code path message).failure.path
      × (((new_error code path message).failure.expected_schema ≡ some 6)
          ↔ (path ≡ codes "schema_version" ∷ []))
unfolding new_error
new_error-IsBounded code message path =
    (ground (arith, parts_short_iff path), ground (arith, schema_path_iff path))

-- The refusal of a request at its version marker.
abbrev pub IsVersionError : RequestError → Type 0
IsVersionError e =
    (e.failure.path ≡ some (codes "schema_version" ∷ [])) × (e.failure.expected_schema ≡ some 6)

version_error :
    (code message : Bytes) → IsVersionError (new_error code (codes "schema_version" ∷ []) message)
unfolding new_error all is_schema_path bytes_eq
version_error code message = (refl, refl)

-- The refusal of a whole request.
abbrev pub IsRootError : RequestError → Type 0
IsRootError e = (e.failure.path ≡ some []) × (e.failure.expected_schema ≡ none)

root_error : (code message : Bytes) → IsRootError (new_error code [] message)
unfolding new_error all is_schema_path
root_error code message = (refl, refl)

require_object_iff :
    (v value : Value) → (require_object v ≡ ok value) ↔ ((v ≡ value) × (is_object value ≡ true))
unfolding require_object
require_object_iff (object fs) value = (
  (λ h. let e : object fs ≡ value = cc in (e, subst (λ v. is_object v ≡ true) e refl)),
  (λ h. cc (h.0)),
)
require_object_iff v value = (
  (λ h. cc),
  (λ h. let k : is_object v ≡ true = subst (λ v. is_object v ≡ true) (sym h.0) h.1 in cc),
)

require_object-IsRootError :
    (v : Value) (e : RequestError) → require_object v ≡ err e → IsRootError e
unfolding require_object
require_object-IsRootError (object fs) e h = cc
require_object-IsRootError null e h = subst IsRootError (err_injective h) (root_error _ _)
require_object-IsRootError v e h = subst IsRootError (err_injective h) (root_error _ _)

module _ (reader : RequestReader) where
  version_at_iff :
      (o : Option Value)
      → (version_at reader o ≡ ok tt) ↔ (
          (n : Bytes) × ((o ≡ some (number n))
            × ((reader.is_whole n ≡ true) × (reader.equals n request_schema_version ≡ true))))
  unfolding version_at version_of_number
  version_at_iff none = ((λ h. cc), (λ h. cc (h.1.0)))
  version_at_iff (some (number n)) = (
    (λ h. (n, (refl, ground arith))),
    (λ h. let same : n ≡ h.0 = cc (h.1.0) in ground (arith, h.1.1)),
  )
  version_at_iff (some null) = ((λ h. cc), (λ h. cc (h.1.0)))
  version_at_iff (some (boolean b)) = ((λ h. cc), (λ h. cc (h.1.0)))
  version_at_iff (some (string b)) = ((λ h. cc), (λ h. cc (h.1.0)))
  version_at_iff (some (array b)) = ((λ h. cc), (λ h. cc (h.1.0)))
  version_at_iff (some (object b)) = ((λ h. cc), (λ h. cc (h.1.0)))

  version_missing-IsVersionError :
      (code : Bytes) (e : RequestError) → version_missing code ≡ err e → IsVersionError e
  unfolding version_missing
  version_missing-IsVersionError code e h =
      subst IsVersionError (err_injective h) (version_error code _)

  version_of_number-IsVersionError :
      (n : Bytes) (e : RequestError) → version_of_number reader n ≡ err e → IsVersionError e
  unfolding version_of_number
  version_of_number-IsVersionError n e h = elim (Bool-cases (reader.is_whole n)) [
    | inr f ↦ version_missing-IsVersionError (codes "type_mismatch") e (rw f at h)
    | inl w ↦ elim (Bool-cases (reader.equals n request_schema_version)) [
      | inl t ↦ cc (rw (w, t) at h)
      | inr f ↦ subst IsVersionError (err_injective (rw (w, f) at h)) (version_error _ _)
    ]
  ]

  version_at-IsVersionError :
      (o : Option Value) (e : RequestError) → version_at reader o ≡ err e → IsVersionError e
  unfolding version_at
  version_at-IsVersionError none e h = version_missing-IsVersionError (codes "missing_field") e h
  version_at-IsVersionError (some (number n)) e h = version_of_number-IsVersionError n e h
  version_at-IsVersionError (some null) e h =
      version_missing-IsVersionError (codes "missing_value") e h
  version_at-IsVersionError (some _) e h =
      version_missing-IsVersionError (codes "type_mismatch") e h

  -- A request passes the version check exactly when its `schema_version` is a whole number equal
  -- to the schema that is accepted; every refusal is located at that key and names the schema.
  pub validate_request_version_lem :
      (value : Value)
      → ((validate_request_version reader value ≡ ok tt) ↔ (
          (n : Bytes) × ((get (codes "schema_version") value ≡ some (number n))
            × ((reader.is_whole n ≡ true) × (reader.equals n request_schema_version ≡ true)))))
        × ((e : RequestError) → validate_request_version reader value ≡ err e → IsVersionError e)
  unfolding validate_request_version
  validate_request_version_lem value =
      let found = get (codes "schema_version") value in
      (version_at_iff found, version_at-IsVersionError found)

  -- Reading a request gives a value exactly when its text is JSON for that value and the value is
  -- an object; every refusal is located at the root and names no schema.
  pub parse_request_lem :
      (text : Bytes)
      → ((value : Value)
          → (parse_request reader text ≡ ok value)
            ↔ ((reader.from_str text ≡ ok value) × (is_object value ≡ true)))
        × ((e : RequestError) → parse_request reader text ≡ err e → IsRootError e)
  unfolding parse_request
  parse_request_lem text = elim (Result-cases (reader.from_str text)) [
    | inl (v, e) ↦ rw e (
      (λ value. (
        (λ h. let k = (require_object_iff v value).0 h in (ap ok k.0, k.1)),
        (λ h. (require_object_iff v value).1 (ok_injective h.0, h.1)),
      )),
      (λ f h. require_object-IsRootError v f h),
    )
    | inr (x, e) ↦ rw e (
      (λ value. ((λ h. cc), (λ h. cc (h.0)))),
      (λ f h. subst IsRootError (err_injective h) (root_error _ _)),
    )
  ]
