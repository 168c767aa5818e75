-- ===== src/Shape/Collect.antt =====
-- What `collect` of controller/src/shape.rs records, and that it never takes back a type.
use policy_witness.Base.{
  Bool, true, false, Option, none, some, List, ◌++◌, if◌then◌else◌, Bytes, codes, bytes_eq,
  bytes_eq_iff, ok, err, Map, map_get, map_insert, map_get-map_insert, ◌≡◌, refl, sym, ◌∙◌, subst,
  ◌⊎◌, inl, inr, arith, Bool-cases,
}
use policy_witness.Json.{Value, array, object, Items, nil, item, Fields, end, field}
use policy_witness.Shape.{
  Shape, json_type, keys_at, enter, child_path, conflict, record_over, record_key, is_opaque,
}

-- The type recorded for a key at a path.
unfoldable pub type_at : Shape → Bytes → Bytes → Option Bytes
unfolding keys_at map_get
type_at s path key = map_get key (keys_at s path)

-- Every recorded type stays, or was null and is now some type.
abbrev pub Keeps : Shape → Shape → Type 0
Keeps s t =
    (path key kind : Bytes)
    → type_at s path key ≡ some kind
    → (now : Bytes) × ((type_at t path key ≡ some now) × ((kind ≡ now) ⊎ (kind ≡ codes "null")))

-- The key has the type, or a type where the document has null.
abbrev pub Typed : Shape → Bytes → Bytes → Bytes → Type 0
Typed s path key kind =
    (now : Bytes) × ((type_at s path key ≡ some now) × ((kind ≡ now) ⊎ (kind ≡ codes "null")))

pub Keeps-refl : (s : Shape) → Keeps s s
Keeps-refl s path key kind h = (kind, (h, inl refl))

pub Keeps-trans : (s t u : Shape) → Keeps s t → Keeps t u → Keeps s u
Keeps-trans s t u f g path key kind h =
    let one = f path key kind h in
    let two = g path key one.0 one.1.0 in
    (
      two.0,
      (
        two.1.0,
        elim one.1.1 [
          | inl e ↦ subst (λ k. (k ≡ two.0) ⊎ (k ≡ codes "null")) (sym e) two.1.1
          | inr e ↦ inr e
        ],
      ),
    )

keys_at-map_insert :
    (s : Shape) (path other : Bytes) (keys : Map Bytes)
    → keys_at (map_insert path keys s) other
      ≡ (if bytes_eq path other then keys else keys_at s other)
unfolding keys_at
keys_at-map_insert s path other keys = ground (arith, map_get-map_insert other path keys s)

type_at-enter :
    (s : Shape) (path other key : Bytes) → type_at (enter s path) other key ≡ type_at s other key
unfolding type_at enter
type_at-enter s path other key =
    ground (arith, keys_at-map_insert s path other (keys_at s path), bytes_eq_iff path other)

-- A key written at a path.
type_at-write :
    (s : Shape) (path key kind other i : Bytes)
    → type_at (map_insert path (map_insert key kind (keys_at s path)) s) other i ≡ (
        if bytes_eq path other
        then (if bytes_eq key i then some kind else type_at s other i)
        else type_at s other i)
unfolding type_at
type_at-write s path key kind other i = ground (
  arith,
  keys_at-map_insert s path other (map_insert key kind (keys_at s path)),
  bytes_eq_iff path other,
  map_get-map_insert i key kind (keys_at s path),
)

type_at-write_same :
    (s : Shape) (path key kind : Bytes)
    → type_at (map_insert path (map_insert key kind (keys_at s path)) s) path key ≡ some kind
type_at-write_same s path key kind =
    ground
      (arith, type_at-write s path key kind path key, bytes_eq_iff path path, bytes_eq_iff key key)

pub enter-Keeps : (s : Shape) (path : Bytes) → Keeps s (enter s path)
enter-Keeps s path other key kind h = (kind, (type_at-enter s path other key ∙ h, inl refl))

-- A key that had no type or null is written.
write-Keeps :
    (s : Shape) (path key kind : Bytes)
    → ((old : Bytes) → type_at s path key ≡ some old → old ≡ codes "null")
    → Keeps s (map_insert path (map_insert key kind (keys_at s path)) s)
write-Keeps s path key kind free other i old h = elim (Bool-cases (bytes_eq path other)) [
  | inr f ↦ (old, (ground (arith, type_at-write s path key kind other i), inl refl))
  | inl e ↦ elim (Bool-cases (bytes_eq key i)) [
    | inr f ↦ (old, (ground (arith, type_at-write s path key kind other i), inl refl))
    | inl g ↦
        let p = (bytes_eq_iff path other).0 e in
        let q = (bytes_eq_iff key i).0 g in
        (kind, (ground (arith, type_at-write s path key kind other i), inr (free old cc)))
  ]
]

write-Typed :
    (s t : Shape) (path key kind : Bytes)
    → ((old : Bytes) → type_at s path key ≡ some old → old ≡ codes "null")
    → map_insert path (map_insert key kind (keys_at s path)) s ≡ t
    → Typed t path key kind × Keeps s t
write-Typed s t path key kind free written =
    subst (λ t. Typed t path key kind × Keeps s t) written
      ((kind, (type_at-write_same s path key kind, inl refl)), write-Keeps s path key kind free)

-- What `record` leaves: the key typed, and the rest kept.
record_over-Typed :
    (s t : Shape) (path key kind : Bytes) (o : Option Bytes)
    → type_at s path key ≡ o
    → record_over s path (keys_at s path) key kind o ≡ ok t
    → Typed t path key kind × Keeps s t
unfolding record_over
record_over-Typed s t path key kind none at h = write-Typed s t path key kind (λ old e. cc) cc
record_over-Typed s t path key kind (some existing) at h =
    go (bytes_eq existing kind) (bytes_eq kind (codes "null")) (bytes_eq existing (codes "null"))
      refl refl refl h
  where
    same : (existing ≡ kind) ⊎ (kind ≡ codes "null") → s ≡ t → Typed t path key kind × Keeps s t
    same how e =
        subst (λ t. Typed t path key kind × Keeps s t) e
          ((existing, (at, elim how [ inl k ↦ inl (sym k) | inr n ↦ inr n ])), Keeps-refl s)

    go :
        (a b c : Bool)
        → bytes_eq existing kind ≡ a
        → bytes_eq kind (codes "null") ≡ b
        → bytes_eq existing (codes "null") ≡ c
        → (if a
            then ok s
            else if b
            then ok s
            else if c
            then ok (map_insert path (map_insert key kind (keys_at s path)) s)
            else err (conflict path key existing kind))
          ≡ ok t
        → Typed t path key kind × Keeps s t
    go true b c ea eb ec h = same (inl ((bytes_eq_iff existing kind).0 ea)) cc
    go false true c ea eb ec h = same (inr ((bytes_eq_iff kind (codes "null")).0 eb)) cc
    go false false true ea eb ec h =
        let nothing = (bytes_eq_iff existing (codes "null")).0 ec in
        write-Typed s t path key kind (λ old e. cc) cc
    go false false false ea eb ec h = cc

pub record_key-Typed :
    (s t : Shape) (path key kind : Bytes)
    → record_key s path key kind ≡ ok t
    → Typed t path key kind × Keeps s t
unfolding record_key type_at
record_key-Typed s t path key kind h =
    let e = enter s path in
    let r = record_over-Typed e t path key kind (type_at e path key) refl h in
    (r.0, Keeps-trans s e t (enter-Keeps s path) r.1)

pub Typed-Keeps :
    (s t : Shape) (path key kind : Bytes)
    → Keeps s t
    → Typed s path key kind
    → Typed t path key kind
Typed-Keeps s t path key kind keeps typed =
    let two = keeps path key typed.0 typed.1.0 in
    (
      two.0,
      (
        two.1.0,
        elim typed.1.1 [
          | inl e ↦ subst (λ k. (k ≡ two.0) ⊎ (k ≡ codes "null")) (sym e) two.1.1
          | inr e ↦ inr e
        ],
      ),
    )

-- The shape has every key of the document at its path, with its type, down to the opaque paths.
unfoldable mutual
  unfolding child_path is_opaque json_type

  pub Fits : List Bytes → Shape → Value → Bytes → Type 0
  Fits opaque_paths s (object fields) path = FitsFields opaque_paths s fields path
  Fits opaque_paths s _ path = Unit

  pub FitsFields : List Bytes → Shape → Fields → Bytes → Type 0
  FitsFields opaque_paths s end path = Unit
  FitsFields opaque_paths s (field key child rest) path =
      Typed s path key (json_type child)
      × (((is_opaque opaque_paths (child_path path key) ≡ false)
            → FitsChild opaque_paths s child (child_path path key))
          × FitsFields opaque_paths s rest path)

  pub FitsChild : List Bytes → Shape → Value → Bytes → Type 0
  FitsChild opaque_paths s (object fields) path = FitsFields opaque_paths s fields path
  FitsChild opaque_paths s (array items) path = FitsItems opaque_paths s items (path ++ codes "[]")
  FitsChild opaque_paths s _ path = Unit

  pub FitsItems : List Bytes → Shape → Items → Bytes → Type 0
  FitsItems opaque_paths s nil path = Unit
  FitsItems opaque_paths s (item v rest) path =
      Fits opaque_paths s v path × FitsItems opaque_paths s rest path

module _ (opaque_paths : List Bytes) (s t : Shape) (keeps : Keeps s t) where
  mutual
    unfolding Fits FitsFields FitsChild FitsItems

    pub Fits-Keeps :
        (v : Value) (path : Bytes) → Fits opaque_paths s v path → Fits opaque_paths t v path
    Fits-Keeps (object fields) path h = FitsFields-Keeps fields path h
    Fits-Keeps _ path h = tt

    pub FitsFields-Keeps :
        (fields : Fields) (path : Bytes)
        → FitsFields opaque_paths s fields path
        → FitsFields opaque_paths t fields path
    FitsFields-Keeps end path h = tt
    FitsFields-Keeps (field key child rest) path h = (
      Typed-Keeps s t path key (json_type child) keeps h.0,
      (
        (λ open_path. FitsChild-Keeps child (child_path path key) (h.1.0 open_path)),
        FitsFields-Keeps rest path h.1.1,
      ),
    )

    pub FitsChild-Keeps :
        (v : Value) (path : Bytes)
        → FitsChild opaque_paths s v path
        → FitsChild opaque_paths t v path
    FitsChild-Keeps (object fields) path h = FitsFields-Keeps fields path h
    FitsChild-Keeps (array items) path h = FitsItems-Keeps items (path ++ codes "[]") h
    FitsChild-Keeps _ path h = tt

    FitsItems-Keeps :
        (items : Items) (path : Bytes)
        → FitsItems opaque_paths s items path
        → FitsItems opaque_paths t items path
    FitsItems-Keeps nil path h = tt
    FitsItems-Keeps (item v rest) path h = (Fits-Keeps v path h.0, FitsItems-Keeps rest path h.1)
