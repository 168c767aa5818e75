-- ===== src/Shape/Tests.antt =====
-- A small document and its shape, and the theorem at it.
use policy_witness.Base.{Bytes, List, [], ◌∷◌, ok, ◌≡◌, refl, codes, ◌↔◌}
use policy_witness.Json.{Value, null, number, string, array, object, nil, item, end, field}
use policy_witness.Shape.{Shape, collect}
use policy_witness.Shape.Collect.{Keeps, Fits}
use policy_witness.Shape.Sound.{collect-Fits}
use policy_witness.Shape.Same.{same_shape, IsSame, same_shape-IsSame}

-- {"a": [{"b": null}, {"b": 1}], "o": {"x": "s"}}, with `o` opaque.
abbrev document : Value
document = object (
    field (codes "a")
      (array (
        item (object (field (codes "b") null end))
          (item (object (field (codes "b") (number (codes "1")) end)) nil)))
      (field (codes "o") (object (field (codes "x") (string (codes "s")) end)) end))

abbrev opaque_paths : List Bytes
opaque_paths = codes "$.o" ∷ []

abbrev shape : Shape
shape =
    (codes "$", (codes "a", codes "array") ∷ (codes "o", codes "object") ∷ [])
    ∷ (codes "$.a[]", (codes "b", codes "number") ∷ [])
    ∷ []

collects : collect document (codes "$") opaque_paths [] ≡ ok shape
unfolding collect
collects = refl

collect-Fits_example : Fits opaque_paths shape document (codes "$") × Keeps [] shape
collect-Fits_example = collect-Fits opaque_paths document (codes "$") [] shape collects

-- The golden has `null` where the document has a number.
abbrev golden : Shape
golden =
    (codes "$", (codes "a", codes "array") ∷ (codes "o", codes "object") ∷ [])
    ∷ (codes "$.a[]", (codes "b", codes "null") ∷ [])
    ∷ []

same_shape-IsSame_example : (same_shape golden shape ≡ ok tt) ↔ IsSame golden shape
same_shape-IsSame_example = same_shape-IsSame golden shape
