-- ===== src/Base/Sorted.antt =====
-- Ordered sets (`BTreeSet`) and stable sorts (`sort`, `sort_by`) as lists, over an order.
use Prim.Native.Nat.{Ordering, suc, ◌+◌}
use mathlib.Core.Path.{◌≡◌, refl, ap, ap₂, ◌∙◌}
use mathlib.Core.Logic.{◌↔◌, ◌⊎◌}
use mathlib.Core.Bool.{Bool, ◌||◌}
use mathlib.Core.List.{List, [], ◌∷◌, Permᴰ}
use mathlib.Core.List.Permᴰ
use native.Mathlib.Omega.{arith}
use policy_witness.Base.Text.{
  Bytes, bytes_cmp, bytes_cmp_self, eq_of_bytes_cmp, bytes_cmp_flip, bytes_cmp_trans,
}
use policy_witness.Base.Lists.{In, length, any, count_if, All}
use policy_witness.Base.Tests.{if◌then◌else◌}

-- A strict total order, as `Ord::cmp`.
pub record Order {ℓ} (A : Type ℓ) : Type ℓ where
  pub cmp : A → A → Ordering
  pub cmp_self : (a : A) → cmp a a ≡ Ordering.eq
  pub eq_of_cmp : (a b : A) → cmp a b ≡ Ordering.eq → a ≡ b
  pub cmp_flip :
      (a b : A)
      → (cmp a b ≡ Ordering.lt → cmp b a ≡ Ordering.gt)
        × (cmp a b ≡ Ordering.gt → cmp b a ≡ Ordering.lt)
  pub cmp_trans :
      (a b c : A) → cmp a b ≡ Ordering.lt → cmp b c ≡ Ordering.lt → cmp a c ≡ Ordering.lt

instance abbrev pub bytes_order : Order Bytes
bytes_order = record {
  cmp = bytes_cmp;
  cmp_self = bytes_cmp_self;
  eq_of_cmp = eq_of_bytes_cmp;
  cmp_flip = bytes_cmp_flip;
  cmp_trans = bytes_cmp_trans;
}

module _ {A : Type 0} ⦃o : Order A⦄ where
  -- `BTreeSet::insert`.
  unfoldable pub set_insert : A → List A → List A
  set_insert x [] = x ∷ []
  set_insert x (y ∷ ys) =
      let rest = set_insert x ys in
      elim (o.cmp x y) [ Ordering.lt ↦ x ∷ y ∷ ys | Ordering.eq ↦ y ∷ ys | Ordering.gt ↦ y ∷ rest ]

  abbrev pub Above : A → List A → Type 0
  Above x [] = Unit
  Above x (y ∷ ys) = (o.cmp x y ≡ Ordering.lt) × Above x ys

  -- Strictly increasing, so without repetition.
  abbrev pub Increasing : List A → Type 0
  Increasing [] = Unit
  Increasing (x ∷ xs) = Above x xs × Increasing xs

  pub In-set_insert : (a x : A) (ys : List A) → In a (set_insert x ys) ↔ ((a ≡ x) ⊎ In a ys)
  unfolding set_insert
  In-set_insert a x [] = ground arith
  In-set_insert a x (y ∷ ys) = ground (arith, In-set_insert a x ys, o.eq_of_cmp x y)

  Above-trans : (x y : A) (zs : List A) → o.cmp x y ≡ Ordering.lt → Above y zs → Above x zs
  Above-trans x y [] h k = tt
  Above-trans x y (z ∷ zs) h k = (o.cmp_trans x y z h k.0, Above-trans x y zs h k.1)

  Above-set_insert :
      (y x : A) (zs : List A) → o.cmp y x ≡ Ordering.lt → Above y zs → Above y (set_insert x zs)
  unfolding set_insert
  Above-set_insert y x [] h k = (h, tt)
  Above-set_insert y x (z ∷ zs) h k = ground (arith, Above-set_insert y x zs)

  pub set_insert-Increasing : (x : A) (ys : List A) → Increasing ys → Increasing (set_insert x ys)
  unfolding set_insert
  set_insert-Increasing x [] h = (tt, tt)
  set_insert-Increasing x (y ∷ ys) h = ground (
    arith,
    set_insert-Increasing x ys,
    Above-set_insert y x ys,
    Above-trans x y ys,
    o.cmp_flip x y,
  )

module _ {ℓ} {A : Type ℓ} (cmp : A → A → Ordering) where
  -- In front of the first item that is not below it, so equal items keep their order.
  unfoldable pub sort_insert : A → List A → List A
  sort_insert x [] = x ∷ []
  sort_insert x (y ∷ ys) =
      let rest = sort_insert x ys in elim (cmp x y) [ Ordering.gt ↦ y ∷ rest | _ ↦ x ∷ y ∷ ys ]

  -- `slice::sort_by`: stable.
  unfoldable pub sort_by : List A → List A
  sort_by [] = []
  sort_by (x ∷ xs) = sort_insert x (sort_by xs)

  sort_insert-Permᴰ : (x : A) (ys : List A) → Permᴰ (sort_insert x ys) (x ∷ ys)
  unfolding sort_insert
  sort_insert-Permᴰ x [] = Permᴰ.refl _
  sort_insert-Permᴰ x (y ∷ ys) =
      elim (cmp x y)
        as (λ c.
          Permᴰ (let rest = sort_insert x ys in elim c [ Ordering.gt ↦ y ∷ rest | _ ↦ x ∷ y ∷ ys ])
            (x ∷ y ∷ ys)) [
              | Ordering.gt ↦
                  Permᴰ.trans (Permᴰ.cons refl (sort_insert-Permᴰ x ys)) (Permᴰ.swap refl refl)
              | _ ↦ Permᴰ.refl _
            ]

  pub sort_by-Permᴰ : (xs : List A) → Permᴰ (sort_by xs) xs
  unfolding sort_by
  sort_by-Permᴰ [] = Permᴰ.refl _
  sort_by-Permᴰ (x ∷ xs) =
      Permᴰ.trans (sort_insert-Permᴰ x (sort_by xs)) (Permᴰ.cons refl (sort_by-Permᴰ xs))

module _ {ℓ} {A : Type ℓ} (cmp : A → A → Ordering) where
  length-sort_insert : (x : A) (ys : List A) → length (sort_insert cmp x ys) ≡ suc (length ys)
  unfolding sort_insert
  length-sort_insert x [] = refl
  length-sort_insert x (y ∷ ys) = ground (arith, length-sort_insert x ys)

  pub length-sort_by : (xs : List A) → length (sort_by cmp xs) ≡ length xs
  unfolding sort_by
  length-sort_by [] = refl
  length-sort_by (x ∷ xs) = omega (arith, length-sort_insert x (sort_by cmp xs), length-sort_by xs)

  any-sort_insert :
      (p : A → Bool) (x : A) (ys : List A) → any p (sort_insert cmp x ys) ≡ (p x || any p ys)
  unfolding sort_insert any
  any-sort_insert p x [] = refl
  any-sort_insert p x (y ∷ ys) = ground (arith, any-sort_insert p x ys)

  -- Sorting does not change whether some item passes a test.
  pub any-sort_by : (p : A → Bool) (xs : List A) → any p (sort_by cmp xs) ≡ any p xs
  unfolding sort_by any
  any-sort_by p [] = refl
  any-sort_by p (x ∷ xs) = ground (arith, any-sort_insert p x (sort_by cmp xs), any-sort_by p xs)

  count_if-sort_insert :
      (p : A → Bool) (x : A) (ys : List A) → count_if p (sort_insert cmp x ys) ≡ count_if p (x ∷ ys)
  unfolding sort_insert count_if
  count_if-sort_insert p x [] = refl
  count_if-sort_insert p x (y ∷ ys) = ground (arith, count_if-sort_insert p x ys)

  pub count_if-sort_by : (p : A → Bool) (xs : List A) → count_if p (sort_by cmp xs) ≡ count_if p xs
  unfolding sort_by count_if
  count_if-sort_by p [] = refl
  count_if-sort_by p (x ∷ xs) =
      count_if-sort_insert p x (sort_by cmp xs)
      ∙ ap (◌+◌ (if p x then 1 else 0)) (count_if-sort_by p xs)

  All-sort_insert {κ} :
      (P : A → Type κ) (x : A) (ys : List A) → P x → All P ys → All P (sort_insert cmp x ys)
  unfolding sort_insert
  All-sort_insert P x [] h k = (h, tt)
  All-sort_insert P x (y ∷ ys) h k =
      elim (cmp x y)
        as (λ c. All P (elim c [ Ordering.gt ↦ y ∷ sort_insert cmp x ys | _ ↦ x ∷ y ∷ ys ])) [
          | Ordering.gt ↦ (k.0, All-sort_insert P x ys h k.1)
          | _ ↦ (h, k)
        ]

  pub All-sort_by {κ} : (P : A → Type κ) (xs : List A) → All P xs → All P (sort_by cmp xs)
  unfolding sort_by
  All-sort_by P [] h = tt
  All-sort_by P (x ∷ xs) h = All-sort_insert P x (sort_by cmp xs) h.0 (All-sort_by P xs h.1)

module _ {A : Type 0} ⦃o : Order A⦄ where
  -- `slice::sort`.
  abbrev pub sort : List A → List A
  sort = sort_by o.cmp

  sort_insert_comm :
      (x y : A) (zs : List A)
      → sort_insert o.cmp x (sort_insert o.cmp y zs) ≡ sort_insert o.cmp y (sort_insert o.cmp x zs)
  unfolding sort_insert
  sort_insert_comm x y [] = ground (arith, o.eq_of_cmp x y, o.cmp_flip x y, o.cmp_flip y x)
  sort_insert_comm x y (z ∷ zs) = ground (
    arith,
    sort_insert_comm x y zs,
    o.eq_of_cmp x y,
    o.eq_of_cmp x z,
    o.eq_of_cmp y z,
    o.cmp_flip x y,
    o.cmp_flip y x,
    o.cmp_flip x z,
    o.cmp_flip z x,
    o.cmp_flip y z,
    o.cmp_flip z y,
    o.cmp_trans x y z,
    o.cmp_trans y x z,
    o.cmp_trans x z y,
    o.cmp_trans y z x,
  )

  -- The sorted list depends only on the items.
  pub sort-Permᴰ : {xs ys : List A} → Permᴰ xs ys → sort xs ≡ sort ys
  unfolding sort_by
  sort-Permᴰ Permᴰ.nil = refl
  sort-Permᴰ (Permᴰ.cons e p) = ap₂ (sort_insert o.cmp) e (sort-Permᴰ p)
  sort-Permᴰ (Permᴰ.swap e f) = rw (e, f) (sort_insert_comm _ _ _)
  sort-Permᴰ (Permᴰ.trans p q) = sort-Permᴰ p ∙ sort-Permᴰ q
