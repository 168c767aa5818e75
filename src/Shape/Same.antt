-- ===== src/Shape/Same.antt =====
-- `same_shape` of controller/src/shape.rs: a golden and an emitted shape agree.
use policy_witness.Base.{
  Bool, true, not, ◌&&◌, Option, none, some, List, [], ◌∷◌, ◌++◌, if◌then◌else◌, Bytes, codes,
  bytes_eq, bytes_eq_iff, Result, ok, err, Map, map_get, All, join, is_some, is_empty, ◌≡◌, refl,
  ◌⊎◌, ◌↔◌, arith,
}
use policy_witness.Shape.{Shape, child_path}

unfoldable pub concat_map {ℓ} : {A : Type ℓ} → (A → List Bytes) → List A → List Bytes
concat_map f [] = []
concat_map f (x ∷ xs) = f x ++ concat_map f xs

-- Both types are known and differ.
unfoldable pub clashes : Bytes → Bytes → Bool
unfolding bytes_eq
clashes now kind =
    not (bytes_eq now kind)
    && (not (bytes_eq now (codes "null")) && not (bytes_eq kind (codes "null")))

unfoldable pub expected_key : Bytes → Bytes × Bytes → Option Bytes → List Bytes
unfolding clashes child_path
expected_key path q none = (codes "missing key " ++ child_path path q.0) ∷ []
expected_key path q (some now) =
    if clashes now q.1
    then (child_path path q.0 ++ (codes ": golden " ++ (q.1 ++ (codes ", emitted " ++ now)))) ∷ []
    else []

unfoldable pub emitted_key : Bytes → Map Bytes → Bytes × Bytes → List Bytes
unfolding map_get child_path
emitted_key path keys q =
    if not (is_some (map_get q.0 keys))
    then (codes "unrecorded key " ++ child_path path q.0) ∷ []
    else []

unfoldable pub expected_path : Bytes × Map Bytes → Option (Map Bytes) → List Bytes
unfolding concat_map expected_key emitted_key map_get
expected_path p none = (codes "missing path " ++ p.0) ∷ []
expected_path p (some now) =
    concat_map (λ q. expected_key p.0 q (map_get q.0 now)) p.1
    ++ concat_map (emitted_key p.0 p.1) now

unfoldable pub emitted_path : Shape → Bytes × Map Bytes → List Bytes
unfolding map_get
emitted_path expected p =
    if not (is_some (map_get p.0 expected)) then (codes "unrecorded path " ++ p.0) ∷ [] else []

unfoldable pub shape_problems : Shape → Shape → List Bytes
unfolding concat_map expected_path emitted_path map_get
shape_problems expected actual =
    concat_map (λ p. expected_path p (map_get p.0 actual)) expected
    ++ concat_map (emitted_path expected) actual

unfoldable pub same_shape : Shape → Shape → Result (Unit {0})
unfolding shape_problems join
same_shape expected actual =
    let problems = shape_problems expected actual in
    if is_empty problems then ok tt else err (join (codes "; ") problems)

-- What agreement is.
abbrev pub IsKnown {ℓ} : {A : Type ℓ} → Option A → Type 0
IsKnown o = is_some o ≡ true

abbrev pub Agrees : Bytes → Option Bytes → Type 0
Agrees kind none = ⊥
Agrees kind (some now) = (now ≡ kind) ⊎ ((now ≡ codes "null") ⊎ (kind ≡ codes "null"))

abbrev pub SameKeys : Map Bytes → Option (Map Bytes) → Type 0
SameKeys keys none = ⊥
SameKeys keys (some now) =
    All (λ q. Agrees q.1 (map_get q.0 now)) keys × All (λ q. IsKnown (map_get q.0 keys)) now

abbrev pub IsSame : Shape → Shape → Type 0
IsSame expected actual =
    All (λ p. SameKeys p.1 (map_get p.0 actual)) expected
    × All (λ p. IsKnown (map_get p.0 expected)) actual

append-nil_iff : (xs ys : List Bytes) → (xs ++ ys ≡ []) ↔ ((xs ≡ []) × (ys ≡ []))
append-nil_iff [] ys = ((λ h. (refl, h)), (λ h. h.1))
append-nil_iff (x ∷ xs) ys = ((λ h. cc), (λ h. cc))

concat_map_iff {ℓ} :
    {A : Type ℓ} (f : A → List Bytes) (P : A → Type 0) (xs : List A)
    → ((x : A) → (f x ≡ []) ↔ P x)
    → (concat_map f xs ≡ []) ↔ All P xs
unfolding concat_map
concat_map_iff f P [] each = ((λ h. tt), (λ h. refl))
concat_map_iff f P (x ∷ xs) each =
    let parts = append-nil_iff (f x) (concat_map f xs) in
    let rest = concat_map_iff f P xs each in
    (
      (λ h. ((each x).0 (parts.0 h).0, rest.0 (parts.0 h).1)),
      (λ h. parts.1 ((each x).1 h.0, rest.1 h.1)),
    )

expected_key_iff :
    (path : Bytes) (q : Bytes × Bytes) (o : Option Bytes)
    → (expected_key path q o ≡ []) ↔ Agrees q.1 o
unfolding expected_key clashes
expected_key_iff path q none = ((λ h. cc), (λ h. elim h [ ]))
expected_key_iff path q (some now) =
    ground (
      arith,
      bytes_eq_iff now q.1,
      bytes_eq_iff now (codes "null"),
      bytes_eq_iff q.1 (codes "null"),
    )

emitted_key_iff :
    (path : Bytes) (keys : Map Bytes) (q : Bytes × Bytes)
    → (emitted_key path keys q ≡ []) ↔ IsKnown (map_get q.0 keys)
unfolding emitted_key
emitted_key_iff path keys q = ground arith

emitted_path_iff :
    (expected : Shape) (p : Bytes × Map Bytes)
    → (emitted_path expected p ≡ []) ↔ IsKnown (map_get p.0 expected)
unfolding emitted_path
emitted_path_iff expected p = ground arith

expected_path_iff :
    (p : Bytes × Map Bytes) (o : Option (Map Bytes)) → (expected_path p o ≡ []) ↔ SameKeys p.1 o
unfolding expected_path
expected_path_iff p none = ((λ h. cc), (λ h. elim h [ ]))
expected_path_iff p (some now) =
    let parts =
      append-nil_iff (concat_map (λ q. expected_key p.0 q (map_get q.0 now)) p.1)
        (concat_map (emitted_key p.0 p.1) now) in
    let left =
      concat_map_iff (λ q. expected_key p.0 q (map_get q.0 now)) (λ q. Agrees q.1 (map_get q.0 now))
        p.1 (λ q. expected_key_iff p.0 q (map_get q.0 now)) in
    let right =
      concat_map_iff (emitted_key p.0 p.1) (λ q. IsKnown (map_get q.0 p.1)) now
        (λ q. emitted_key_iff p.0 p.1 q) in
    ((λ h. (left.0 (parts.0 h).0, right.0 (parts.0 h).1)), (λ h. parts.1 (left.1 h.0, right.1 h.1)))

shape_problems_iff :
    (expected actual : Shape) → (shape_problems expected actual ≡ []) ↔ IsSame expected actual
unfolding shape_problems
shape_problems_iff expected actual =
    let parts =
      append-nil_iff (concat_map (λ p. expected_path p (map_get p.0 actual)) expected)
        (concat_map (emitted_path expected) actual) in
    let left =
      concat_map_iff (λ p. expected_path p (map_get p.0 actual))
        (λ p. SameKeys p.1 (map_get p.0 actual)) expected
        (λ p. expected_path_iff p (map_get p.0 actual)) in
    let right =
      concat_map_iff (emitted_path expected) (λ p. IsKnown (map_get p.0 expected)) actual
        (λ p. emitted_path_iff expected p) in
    ((λ h. (left.0 (parts.0 h).0, right.0 (parts.0 h).1)), (λ h. parts.1 (left.1 h.0, right.1 h.1)))

-- The comparison of a golden with an emitted shape succeeds exactly when the two have the same
-- paths, with the same keys at each, and every key has one type in both, or null in one of them.
pub same_shape-IsSame :
    (expected actual : Shape) → (same_shape expected actual ≡ ok tt) ↔ IsSame expected actual
unfolding same_shape
same_shape-IsSame expected actual =
    let iff = shape_problems_iff expected actual in ground (arith, iff)
