-- ===== src/Base/Text.antt =====
-- Text as its UTF-8 bytes, compared byte by byte as `str` and `[u8]` are.
use Prim.Native.Nat.{ℕ, compare, Ordering}
use Prim.Native.Char.{code}
use Prim.Native.String.{String}
use mathlib.Core.Path.{◌≡◌, refl}
use mathlib.Core.Logic.{◌↔◌}
use mathlib.Core.Bool.{Bool, true, false, ◌&&◌}
use mathlib.Core.List.{List, [], ◌∷◌, ◌++◌}
use native.Mathlib.Omega.{arith}
use policy_witness.Base.Tests.{◌==◌}

abbrev pub Bytes : Type 0
Bytes = List ℕ

-- The bytes of an ASCII literal.
abbrev pub codes : String → Bytes
codes String.[] = []
codes (String.◌∷◌ c s) = code c ∷ codes s

unfoldable pub bytes_eq : Bytes → Bytes → Bool
bytes_eq [] [] = true
bytes_eq (x ∷ xs) (y ∷ ys) = x == y && bytes_eq xs ys
bytes_eq _ _ = false

pub bytes_eq_iff : (a b : Bytes) → (bytes_eq a b ≡ true) ↔ (a ≡ b)
unfolding bytes_eq
bytes_eq_iff (x ∷ a) (y ∷ b) = ground (arith, bytes_eq_iff a b)
bytes_eq_iff _ _ = ground arith

-- `starts_with`, and `strip_prefix` without its rest.
unfoldable pub starts_with : Bytes → Bytes → Bool
starts_with s [] = true
starts_with [] (p ∷ ps) = false
starts_with (c ∷ s) (p ∷ ps) = c == p && starts_with s ps

-- The lexicographic order of `Ord for str`.
unfoldable pub bytes_cmp : Bytes → Bytes → Ordering
bytes_cmp [] [] = Ordering.eq
bytes_cmp [] (_ ∷ _) = Ordering.lt
bytes_cmp (_ ∷ _) [] = Ordering.gt
bytes_cmp (x ∷ xs) (y ∷ ys) =
    let rest = bytes_cmp xs ys in
    elim (compare x y) [
      | Ordering.eq ↦ rest
      | Ordering.lt ↦ Ordering.lt
      | Ordering.gt ↦ Ordering.gt
    ]

pub bytes_cmp_self : (a : Bytes) → bytes_cmp a a ≡ Ordering.eq
unfolding bytes_cmp
bytes_cmp_self [] = refl
bytes_cmp_self (x ∷ a) = ground (arith, bytes_cmp_self a)

pub eq_of_bytes_cmp : (a b : Bytes) → bytes_cmp a b ≡ Ordering.eq → a ≡ b
unfolding bytes_cmp
eq_of_bytes_cmp (x ∷ a) (y ∷ b) h = ground (arith, eq_of_bytes_cmp a b)
eq_of_bytes_cmp _ _ h = ground arith

pub bytes_cmp_flip :
    (a b : Bytes)
    → (bytes_cmp a b ≡ Ordering.lt → bytes_cmp b a ≡ Ordering.gt)
      × (bytes_cmp a b ≡ Ordering.gt → bytes_cmp b a ≡ Ordering.lt)
unfolding bytes_cmp
bytes_cmp_flip (x ∷ a) (y ∷ b) = ground (arith, bytes_cmp_flip a b)
bytes_cmp_flip _ _ = ground arith

pub bytes_cmp_trans :
    (a b c : Bytes)
    → bytes_cmp a b ≡ Ordering.lt
    → bytes_cmp b c ≡ Ordering.lt
    → bytes_cmp a c ≡ Ordering.lt
unfolding bytes_cmp
bytes_cmp_trans (x ∷ a) (y ∷ b) (z ∷ c) h k = ground (arith, bytes_cmp_trans a b c)
bytes_cmp_trans _ _ _ h k = ground arith

-- `[T]::join` on texts.
unfoldable pub join : Bytes → List Bytes → Bytes
join separator [] = []
join separator (s ∷ []) = s
join separator (s ∷ t ∷ rest) = s ++ (separator ++ join separator (t ∷ rest))
