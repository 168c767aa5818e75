-- ===== src/Json.antt =====
-- JSON values, as serde_json's `Value` documents them: an object is a BTreeMap, its fields in the
-- order of their keys. A number is kept as the bytes of its literal. Reading and printing JSON text
-- are not modelled.
use policy_witness.Base.{
  Bool, true, false, ◌&&◌, Option, none, some, Bytes, bytes_eq, if◌then◌else◌, bytes_cmp, Ordering,
  ◌≡◌, refl, arith, bytes_eq_iff, eq_of_bytes_cmp, bytes_cmp_self, List, [], ◌∷◌,
}

mutual
  pub data Value : Type 0 where
    null : Value
    boolean : Bool → Value
    number : Bytes → Value
    string : Bytes → Value
    array : Items → Value
    object : Fields → Value

  pub data Items : Type 0 where
    nil : Items
    item : Value → Items → Items

  pub data Fields : Type 0 where
    end : Fields
    field : Bytes → Value → Fields → Fields

unfoldable pub bool_eq : Bool → Bool → Bool
bool_eq true b = b
bool_eq false true = false
bool_eq false false = true

-- `PartialEq for Value`.
unfoldable mutual
  unfolding bool_eq bytes_eq

  pub value_eq : Value → Value → Bool
  value_eq null null = true
  value_eq (boolean a) (boolean b) = bool_eq a b
  value_eq (number a) (number b) = bytes_eq a b
  value_eq (string a) (string b) = bytes_eq a b
  value_eq (array a) (array b) = items_eq a b
  value_eq (object a) (object b) = fields_eq a b
  value_eq _ _ = false

  pub items_eq : Items → Items → Bool
  items_eq nil nil = true
  items_eq (item a as') (item b bs) = value_eq a b && items_eq as' bs
  items_eq _ _ = false

  pub fields_eq : Fields → Fields → Bool
  fields_eq end end = true
  fields_eq (field j a fs) (field k b gs) = bytes_eq j k && (value_eq a b && fields_eq fs gs)
  fields_eq _ _ = false

unfoldable pub lookup : Bytes → Fields → Option Value
unfolding bytes_eq
lookup key end = none
lookup key (field k v fs) = if bytes_eq k key then some v else lookup key fs

-- `Value::get` with a key.
unfoldable pub get : Bytes → Value → Option Value
unfolding lookup
get key (object fs) = lookup key fs
get key _ = none

-- `and_then(Value::as_str)`.
unfoldable pub as_str : Option Value → Option Bytes
as_str (some (string s)) = some s
as_str _ = none

unfoldable pub get_in : Bytes → Option Value → Option Value
unfolding get
get_in key none = none
get_in key (some v) = get key v

abbrev pub is_object : Value → Bool
is_object (object _) = true
is_object _ = false

abbrev pub is_null : Value → Bool
is_null null = true
is_null _ = false

-- `Map::remove`.
unfoldable pub remove : Bytes → Fields → Fields
unfolding bytes_eq
remove key end = end
remove key (field k v rest) =
    let later = remove key rest in if bytes_eq k key then later else field k v later

-- `Map::insert`: the fields stay in the order of their keys.
unfoldable pub insert : Bytes → Value → Fields → Fields
unfolding bytes_cmp
insert key v end = field key v end
insert key v (field k w rest) =
    let later = insert key v rest in
    elim (bytes_cmp key k) [
      | Ordering.lt ↦ field key v (field k w rest)
      | Ordering.eq ↦ field key v rest
      | Ordering.gt ↦ field k w later
    ]

pub lookup-remove :
    (i key : Bytes) (fields : Fields)
    → lookup i (remove key fields) ≡ (if bytes_eq key i then none else lookup i fields)
unfolding lookup remove
lookup-remove i key end = ground arith
lookup-remove i key (field k v rest) =
    ground
      (arith, lookup-remove i key rest, bytes_eq_iff key i, bytes_eq_iff k i, bytes_eq_iff k key)

pub lookup-insert :
    (i key : Bytes) (v : Value) (fields : Fields)
    → lookup i (insert key v fields) ≡ (if bytes_eq key i then some v else lookup i fields)
unfolding lookup insert
lookup-insert i key v end = refl
lookup-insert i key v (field k w rest) = ground (
  arith,
  lookup-insert i key v rest,
  eq_of_bytes_cmp key k,
  bytes_cmp_self key,
  bytes_eq_iff key i,
  bytes_eq_iff k i,
)

-- An array of texts.
abbrev pub items_of : List Bytes → Items
items_of [] = nil
items_of (s ∷ rest) = item (string s) (items_of rest)

-- What `get_mut` gives is written back: the first field of the key has the value.
unfoldable pub set_at : Bytes → Value → Fields → Fields
unfolding bytes_eq
set_at key v end = end
set_at key v (field k w rest) =
    let later = set_at key v rest in if bytes_eq k key then field k v rest else field k w later

pub lookup-set_at :
    (i key : Bytes) (v w : Value) (fields : Fields)
    → lookup key fields ≡ some w
    → lookup i (set_at key v fields) ≡ (if bytes_eq key i then some v else lookup i fields)
unfolding lookup set_at
lookup-set_at i key v w end h = cc
lookup-set_at i key v w (field k x rest) h =
    ground (
      arith,
      lookup-set_at i key v w rest,
      bytes_eq_iff key i,
      bytes_eq_iff k i,
      bytes_eq_iff k key,
    )

pub items_of_injective : (l k : List Bytes) → items_of l ≡ items_of k → l ≡ k
items_of_injective [] [] h = refl
items_of_injective [] (b ∷ k) h = cc
items_of_injective (a ∷ l) [] h = cc
items_of_injective (a ∷ l) (b ∷ k) h =
    let rest : items_of l ≡ items_of k = cc in cc (items_of_injective l k rest)

-- `and_then(Value::as_object)`.
unfoldable pub as_object : Option Value → Option Fields
as_object (some (object fields)) = some fields
as_object _ = none
