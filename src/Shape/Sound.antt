-- ===== src/Shape/Sound.antt =====
-- What a run of `collect` of controller/src/shape.rs that succeeds has recorded.
use policy_witness.Base.{
  Bool, true, false, List, ◌++◌, if◌then◌else◌, Bytes, codes, Result, ok, err, ◌≡◌, refl, subst,
}
use policy_witness.Json.{
  Value, null, boolean, number, string, array, object, Items, nil, item, Fields, end, field,
}
use policy_witness.Shape.{
  Shape, json_type, enter, child_path, record_key, and_then, is_opaque, collect, collect_fields,
  collect_child, collect_items,
}
use policy_witness.Shape.Collect.{
  Keeps, Keeps-refl, Keeps-trans, enter-Keeps, record_key-Typed, Typed-Keeps, Fits, FitsFields,
  FitsChild, FitsItems, FitsChild-Keeps, Fits-Keeps,
}

and_then_parts :
    (r : Result Shape) (f : Shape → Result Shape) (t : Shape)
    → and_then r f ≡ ok t
    → (u : Shape) × ((r ≡ ok u) × (f u ≡ ok t))
and_then_parts (ok u) f t h = (u, (refl, h))
and_then_parts (err e) f t h = cc

-- A child that is opaque, or was entered.
entered_parts :
    (b : Bool) (t u : Shape) (r : Result Shape) (P : Shape → Type 0)
    → (r ≡ ok u → P u × Keeps t u)
    → (if b then ok t else r) ≡ ok u
    → ((b ≡ false) → P u) × Keeps t u
entered_parts true t u r P f h =
    let same : t ≡ u = cc in ((λ e. cc), subst (λ u. Keeps t u) same (Keeps-refl t))
entered_parts false t u r P f h = let g = f h in ((λ e. g.0), g.1)

unchanged : (s t : Shape) → ◌≡◌ {A = Result Shape} (ok s) (ok t) → Unit {0} × Keeps s t
unchanged s t h = let same : s ≡ t = cc in (tt, subst (λ t. Keeps s t) same (Keeps-refl s))

module _ (opaque_paths : List Bytes) where
  mutual
    unfolding collect collect_fields collect_child collect_items Fits FitsFields FitsChild FitsItems

    walk-Fits :
        (v : Value) (path : Bytes) (s t : Shape)
        → collect v path opaque_paths s ≡ ok t
        → Fits opaque_paths t v path × Keeps s t
    walk-Fits (object fields) path s t h =
        let r = collect_fields-Fits fields path (enter s path) t h in
        (r.0, Keeps-trans s (enter s path) t (enter-Keeps s path) r.1)
    walk-Fits null path s t h = unchanged s t h
    walk-Fits (boolean _) path s t h = unchanged s t h
    walk-Fits (number _) path s t h = unchanged s t h
    walk-Fits (string _) path s t h = unchanged s t h
    walk-Fits (array _) path s t h = unchanged s t h

    collect_fields-Fits :
        (fields : Fields) (path : Bytes) (s t : Shape)
        → collect_fields fields path opaque_paths s ≡ ok t
        → FitsFields opaque_paths t fields path × Keeps s t
    collect_fields-Fits end path s t h = unchanged s t h
    collect_fields-Fits (field key child rest) path s t h =
        let first = and_then_parts (record_key s path key (json_type child)) _ t h in
        let one = record_key-Typed s first.0 path key (json_type child) first.1.0 in
        let second = and_then_parts _ _ t first.1.1 in
        let here = child_path path key in
        let two =
          entered_parts (is_opaque opaque_paths here) first.0 second.0
            (collect_child child here opaque_paths first.0)
            (λ u. FitsChild opaque_paths u child here)
            (λ e. collect_child-Fits child here first.0 second.0 e) second.1.0 in
        let three = collect_fields-Fits rest path second.0 t second.1.1 in
        let later = Keeps-trans first.0 second.0 t two.1 three.1 in
        (
          (
            Typed-Keeps first.0 t path key (json_type child) later one.0,
            ((λ e. FitsChild-Keeps opaque_paths second.0 t three.1 child here (two.0 e)), three.0),
          ),
          Keeps-trans s first.0 t one.1 later,
        )

    collect_child-Fits :
        (v : Value) (path : Bytes) (s t : Shape)
        → collect_child v path opaque_paths s ≡ ok t
        → FitsChild opaque_paths t v path × Keeps s t
    collect_child-Fits (object fields) path s t h =
        let r = collect_fields-Fits fields path (enter s path) t h in
        (r.0, Keeps-trans s (enter s path) t (enter-Keeps s path) r.1)
    collect_child-Fits (array items) path s t h =
        collect_items-Fits items (path ++ codes "[]") s t h
    collect_child-Fits null path s t h = unchanged s t h
    collect_child-Fits (boolean _) path s t h = unchanged s t h
    collect_child-Fits (number _) path s t h = unchanged s t h
    collect_child-Fits (string _) path s t h = unchanged s t h

    collect_items-Fits :
        (items : Items) (path : Bytes) (s t : Shape)
        → collect_items items path opaque_paths s ≡ ok t
        → FitsItems opaque_paths t items path × Keeps s t
    collect_items-Fits nil path s t h = unchanged s t h
    collect_items-Fits (item v rest) path s t h =
        let first = and_then_parts (collect v path opaque_paths s) _ t h in
        let one = walk-Fits v path s first.0 first.1.0 in
        let two = collect_items-Fits rest path first.0 t first.1.1 in
        (
          (Fits-Keeps opaque_paths first.0 t two.1 v path one.0, two.0),
          Keeps-trans s first.0 t one.1 two.1,
        )

  -- When the collection of a document's shape succeeds, the shape that results has every key of
  -- the document, at each depth and in each item of an array, at its path, and with its type
  -- where the document does not have null there; only what lies under an opaque path is left
  -- out. Every type that was recorded before is still recorded, or was null and has a type now.
  pub collect-Fits :
      (v : Value) (path : Bytes) (s t : Shape)
      → collect v path opaque_paths s ≡ ok t
      → Fits opaque_paths t v path × Keeps s t
  collect-Fits v path s t h = walk-Fits v path s t h
