-- ===== src/Shape.antt =====
-- controller/src/shape.rs: the keys and types that a document carries, by object path, and their
-- comparison with a recorded golden.
pub mod Collect
pub mod Same
pub mod Sound
mod Tests
use policy_witness.Base.{
  Bool, true, false, not, ◌&&◌, Option, none, some, List, [], ◌∷◌, ◌++◌, if◌then◌else◌, Bytes,
  codes, bytes_eq, Result, ok, err, Map, map_get, map_insert, any,
}
use policy_witness.Json.{
  Value, null, boolean, number, string, array, object, Items, nil, item, Fields, end, field,
}

abbrev pub Shape : Type 0
Shape = Map (Map Bytes)

unfoldable pub json_type : Value → Bytes
json_type null = codes "null"
json_type (boolean _) = codes "boolean"
json_type (number _) = codes "number"
json_type (string _) = codes "string"
json_type (array _) = codes "array"
json_type (object _) = codes "object"

-- `entry(path).or_default()`: the keys at the path.
abbrev pub or_default : Option (Map Bytes) → Map Bytes
or_default none = []
or_default (some keys) = keys

unfoldable pub keys_at : Shape → Bytes → Map Bytes
unfolding map_get
keys_at shape path = or_default (map_get path shape)

unfoldable pub enter : Shape → Bytes → Shape
unfolding map_insert keys_at
enter shape path = map_insert path (keys_at shape path) shape

-- The text of a path's key.
unfoldable pub child_path : Bytes → Bytes → Bytes
child_path path key = path ++ (codes "." ++ key)

unfoldable pub conflict : Bytes → Bytes → Bytes → Bytes → Bytes
unfolding child_path
conflict path key existing kind =
    codes "shape conflict at "
    ++ (child_path path key ++ (codes ": " ++ (existing ++ (codes " and " ++ kind))))

-- The arms of `record`, over what the path has recorded for the key.
unfoldable pub record_over : Shape → Bytes → Map Bytes → Bytes → Bytes → Option Bytes → Result Shape
unfolding map_insert conflict bytes_eq
record_over shape path keys key kind none = ok (map_insert path (map_insert key kind keys) shape)
record_over shape path keys key kind (some existing) =
    if bytes_eq existing kind
    then ok shape
    else if bytes_eq kind (codes "null")
    then ok shape
    else if bytes_eq existing (codes "null")
    then ok (map_insert path (map_insert key kind keys) shape)
    else err (conflict path key existing kind)

-- `record`.
unfoldable pub record_key : Shape → Bytes → Bytes → Bytes → Result Shape
unfolding enter keys_at map_get record_over
record_key shape path key kind =
    let entered = enter shape path in
    let keys = keys_at entered path in record_over entered path keys key kind (map_get key keys)

-- `?`.
abbrev pub and_then : Result Shape → (Shape → Result Shape) → Result Shape
and_then (ok s) f = f s
and_then (err e) f = err e

unfoldable pub is_opaque : List Bytes → Bytes → Bool
unfolding any bytes_eq
is_opaque opaque_paths path = any (λ p. bytes_eq p path) opaque_paths

-- `collect`, with the loops over an object's fields and an array's items; an item that is no object
-- adds nothing.
unfoldable mutual
  unfolding enter record_key json_type child_path is_opaque

  pub collect : Value → Bytes → List Bytes → Shape → Result Shape
  collect (object fields) path opaque_paths s =
      collect_fields fields path opaque_paths (enter s path)
  collect _ path opaque_paths s = ok s

  pub collect_fields : Fields → Bytes → List Bytes → Shape → Result Shape
  collect_fields end path opaque_paths s = ok s
  collect_fields (field key child rest) path opaque_paths s =
      and_then (record_key s path key (json_type child)) (λ t.
        let entered = collect_child child (child_path path key) opaque_paths t in
        and_then (if is_opaque opaque_paths (child_path path key) then ok t else entered)
          (λ u. collect_fields rest path opaque_paths u))

  pub collect_child : Value → Bytes → List Bytes → Shape → Result Shape
  collect_child (object fields) path opaque_paths s =
      collect_fields fields path opaque_paths (enter s path)
  collect_child (array items) path opaque_paths s =
      collect_items items (path ++ codes "[]") opaque_paths s
  collect_child _ path opaque_paths s = ok s

  pub collect_items : Items → Bytes → List Bytes → Shape → Result Shape
  collect_items nil path opaque_paths s = ok s
  collect_items (item v rest) path opaque_paths s =
      and_then (collect v path opaque_paths s) (λ t. collect_items rest path opaque_paths t)
