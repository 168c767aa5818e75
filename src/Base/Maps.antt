-- ===== src/Base/Maps.antt =====
-- std's BTreeMap with text keys: an association list in the order of the keys.
use Prim.Native.Nat.{Ordering}
use mathlib.Core.Path.{◌≡◌, refl}
use mathlib.Core.Option.{Option, none, some}
use mathlib.Core.List.{List, [], ◌∷◌}
use native.Mathlib.Omega.{arith}
use policy_witness.Base.Tests.{if◌then◌else◌}
use policy_witness.Base.Text.{
  Bytes, bytes_eq, bytes_eq_iff, bytes_cmp, bytes_cmp_self, eq_of_bytes_cmp,
}

abbrev pub Map : Type 0 → Type 0
Map A = List (Bytes × A)

module _ {A : Type 0} where
  unfoldable pub map_get : Bytes → Map A → Option A
  unfolding bytes_eq
  map_get key [] = none
  map_get key (p ∷ m) = if bytes_eq p.0 key then some p.1 else map_get key m

  unfoldable pub map_insert : Bytes → A → Map A → Map A
  unfolding bytes_cmp
  map_insert key v [] = (key, v) ∷ []
  map_insert key v (p ∷ m) =
      let rest = map_insert key v m in
      elim (bytes_cmp key p.0) [
        | Ordering.lt ↦ (key, v) ∷ (p ∷ m)
        | Ordering.eq ↦ (key, v) ∷ m
        | Ordering.gt ↦ p ∷ rest
      ]

  pub map_get-map_insert :
      (i key : Bytes) (v : A) (m : Map A)
      → map_get i (map_insert key v m) ≡ (if bytes_eq key i then some v else map_get i m)
  unfolding map_get map_insert
  map_get-map_insert i key v [] = refl
  map_get-map_insert i key v (p ∷ m) = ground (
    arith,
    map_get-map_insert i key v m,
    eq_of_bytes_cmp key p.0,
    bytes_cmp_self key,
    bytes_eq_iff key i,
    bytes_eq_iff p.0 i,
  )
