-- ===== src/RunnerSelect/Parse/Held.antt =====
-- What the fields of a selector object hold when they are read, for controller/src/runner_select.rs.
use policy_witness.Base.{
  ℕ, ◌+◌, Option, none, some, List, Bytes, codes, bytes_eq, bytes_eq_iff, ok, err, went_on, map_ok,
  ok_injective, ◌≡◌, refl, subst, ap, ◌⊎◌, inl, inr, Bool-cases,
}
use policy_witness.Json.{
  Value, null, boolean, number, string, array, object, Items, nil, item, items_of,
}
use policy_witness.RequestPatch.{Request}
use policy_witness.RunnerManager.{RunnerKind, standard, byoxpc}
use policy_witness.RunnerManager.Kinds.{parse_kind, kind_text}
use policy_witness.RunnerSelect.Parse.{
  string_field, entitlement_item, entitlement_items, entitlements_field,
}

abbrev pub IsNull : Option Value → Type 0
IsNull o = (o ≡ none) ⊎ (o ≡ some null)

-- What a field holds: nothing or null, or exactly that text, that list of texts, or that mode.
abbrev pub IsText : Option Value → Option Bytes → Type 0
IsText o none = IsNull o
IsText o (some s) = o ≡ some (string s)

abbrev pub IsTexts : Option Value → Option (List Bytes) → Type 0
IsTexts o none = IsNull o
IsTexts o (some l) = o ≡ some (array (items_of l))

abbrev pub IsMode : Option Value → Option RunnerKind → Type 0
IsMode o none = IsNull o
IsMode o (some kind) = o ≡ some (string (kind_text kind))

pub string_field-IsText :
    (key path : Bytes) (o : Option Value) (t : Option Bytes)
    → string_field key path o ≡ ok t
    → IsText o t
unfolding string_field
string_field-IsText key path none t h = subst (IsText none) (ok_injective h) (inl refl)
string_field-IsText key path (some null) t h =
    subst (IsText (some null)) (ok_injective h) (inr refl)
string_field-IsText key path (some (string s)) t h =
    subst (IsText (some (string s))) (ok_injective h) refl
string_field-IsText key path (some (boolean b)) t h = cc
string_field-IsText key path (some (number n)) t h = cc
string_field-IsText key path (some (array a)) t h = cc
string_field-IsText key path (some (object f)) t h = cc

entitlement_item-string :
    (path : Bytes) (i : ℕ) (v : Value) (s : Bytes) → entitlement_item path i v ≡ ok s → v ≡ string s
unfolding entitlement_item
entitlement_item-string path i (string t) s h = ap string (ok_injective h)
entitlement_item-string path i null s h = cc
entitlement_item-string path i (boolean b) s h = cc
entitlement_item-string path i (number n) s h = cc
entitlement_item-string path i (array a) s h = cc
entitlement_item-string path i (object f) s h = cc

entitlement_items-texts :
    (path : Bytes) (i : ℕ) (items : Items) (l : List Bytes)
    → entitlement_items path i items ≡ ok l
    → items ≡ items_of l
unfolding entitlement_items
entitlement_items-texts path i nil l h = subst (λ l. nil ≡ items_of l) (ok_injective h) refl
entitlement_items-texts path i (item v rest) l h =
    let one = went_on (entitlement_item path i v) _ h in
    let two = went_on (entitlement_items path (i + 1) rest) _ one.2 in
    let head = entitlement_item-string path i v one.0 one.1 in
    let tail = entitlement_items-texts path (i + 1) rest two.0 two.1 in
    subst (λ l. item v rest ≡ items_of l) (ok_injective two.2) cc

pub entitlements_field-IsTexts :
    (path : Bytes) (o : Option Value) (t : Option (List Bytes))
    → entitlements_field path o ≡ ok t
    → IsTexts o t
unfolding entitlements_field
entitlements_field-IsTexts path none t h = subst (IsTexts none) (ok_injective h) (inl refl)
entitlements_field-IsTexts path (some null) t h =
    subst (IsTexts (some null)) (ok_injective h) (inr refl)
entitlements_field-IsTexts path (some (array items)) t h =
    go (entitlement_items path 0 items) (λ l e. entitlement_items-texts path 0 items l e) h
  where
    go :
        (r : Request (List Bytes))
        → ((l : List Bytes) → r ≡ ok l → items ≡ items_of l)
        → map_ok some r ≡ ok t
        → IsTexts (some (array items)) t
    go (err e) texts h = cc
    go (ok l) texts h =
        subst (IsTexts (some (array items))) (ok_injective h)
          (ap (λ i. some (array i)) (texts l refl))
entitlements_field-IsTexts path (some (string s)) t h = cc
entitlements_field-IsTexts path (some (boolean b)) t h = cc
entitlements_field-IsTexts path (some (number n)) t h = cc
entitlements_field-IsTexts path (some (object f)) t h = cc

pub parse_kind_text :
    (value : Bytes) (kind : RunnerKind) → parse_kind value ≡ some kind → value ≡ kind_text kind
unfolding parse_kind kind_text
parse_kind_text value kind h = elim (Bool-cases (bytes_eq value (codes "standard"))) [
  | inl t ↦
      let k : standard ≡ kind = cc (rw t at h) in
      subst (λ k. value ≡ kind_text k) k ((bytes_eq_iff value (codes "standard")).0 t)
  | inr f ↦ elim (Bool-cases (bytes_eq value (codes "byoxpc"))) [
    | inl t ↦
        let k : byoxpc ≡ kind = cc (rw (f, t) at h) in
        subst (λ k. value ≡ kind_text k) k ((bytes_eq_iff value (codes "byoxpc")).0 t)
    | inr g ↦ cc (rw (f, g) at h)
  ]
]
