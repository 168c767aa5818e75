-- ===== src/Base/Results.antt =====
-- Rust's `Result`, with its error's type (`ResultOf`) or with a text for the error (`Result`), and
-- the operations on results and options that the source uses.
use mathlib.Core.Path.{◌≡◌, refl}
use mathlib.Core.Logic.{◌⊎◌, inl, inr}
use mathlib.Core.Option.{Option, none, some}
use mathlib.Core.Bool.{Bool, true, false}
use policy_witness.Base.Tests.{if◌then◌else◌}
use policy_witness.Base.Text.{Bytes}

pub data ResultOf {ℓ} (E : Type 0) (A : Type ℓ) : Type ℓ where
  ok : A → ResultOf E A
  err : E → ResultOf E A

abbrev pub Result {ℓ} : Type ℓ → Type ℓ
Result A = ResultOf Bytes A

-- `?`, with what follows it as a function.
infixl 5 ◌>>=◌
abbrev pub ◌>>=◌ {κ ℓ} :
    {A : Type κ} {B : Type ℓ} {E : Type 0} → ResultOf E A → (A → ResultOf E B) → ResultOf E B
err reason >>= next = err reason
ok value >>= next = next value

abbrev pub map_err {ℓ} : {E F : Type 0} {A : Type ℓ} → (E → F) → ResultOf E A → ResultOf F A
map_err f (ok a) = ok a
map_err f (err e) = err (f e)

abbrev pub map_ok {ℓ κ} :
    {E : Type 0} {A : Type ℓ} {B : Type κ} → (A → B) → ResultOf E A → ResultOf E B
map_ok f (ok a) = ok (f a)
map_ok f (err e) = err e

abbrev pub ok_or {ℓ} : {E : Type 0} {A : Type ℓ} → Option A → E → ResultOf E A
ok_or none e = err e
ok_or (some a) e = ok a

abbrev pub unwrap_or {ℓ} : {A : Type ℓ} → Option A → A → A
unwrap_or none b = b
unwrap_or (some a) b = a

-- What a `?` that did not return went through.
pub went_on {κ ℓ} :
    {E : Type 0} {A : Type κ} {B : Type ℓ} {end : B} (first : ResultOf E A)
    (next : A → ResultOf E B)
    → (first >>= next) ≡ ok end
    → (value : A) × (first ≡ ok value) × (next value ≡ ok end)
went_on (err reason) next e = cc
went_on (ok value) next e = (value, refl, e)

pub Result-cases {ℓ} :
    {E : Type 0} {A : Type ℓ} (r : ResultOf E A) → ((a : A) × (r ≡ ok a)) ⊎ ((e : E) × (r ≡ err e))
Result-cases (ok a) = inl (a, refl)
Result-cases (err e) = inr (e, refl)

pub ok_injective {ℓ} :
    {E : Type 0} {A : Type ℓ} {a b : A} → ◌≡◌ {A = ResultOf E A} (ok a) (ok b) → a ≡ b
ok_injective h = cc

pub err_injective {ℓ} :
    {E : Type 0} {A : Type ℓ} {e f : E} → ◌≡◌ {A = ResultOf E A} (err e) (err f) → e ≡ f
err_injective h = cc

-- A result with a property of its value, or of its error.
abbrev pub Ends {ℓ} :
    {E : Type 0} {A : Type ℓ} → (A → Type 0) → (E → Type 0) → ResultOf E A → Type 0
Ends P Q (ok value) = P value
Ends P Q (err reason) = Q reason

-- A `?`: the property of the first value is what the rest may use.
pub Ends-bind {κ ℓ} :
    {E : Type 0} {A : Type κ} {B : Type ℓ} (P : A → Type 0) (R : B → Type 0) (Q : E → Type 0)
    (first : ResultOf E A) (next : A → ResultOf E B)
    → Ends P Q first
    → ((value : A) → P value → Ends R Q (next value))
    → Ends R Q (first >>= next)
Ends-bind P R Q (err reason) next h k = h
Ends-bind P R Q (ok value) next h k = k value h

pub then_branch :
    {A E : Type 0} {value : A} (t : Bool) (x y : ResultOf E A)
    → t ≡ true
    → (if t then x else y) ≡ ok value
    → x ≡ ok value
then_branch true x y t h = h
then_branch false x y t h = cc

pub else_branch :
    {A E : Type 0} {value : A} (t : Bool) (x y : ResultOf E A)
    → t ≡ false
    → (if t then x else y) ≡ ok value
    → y ≡ ok value
else_branch false x y t h = h
else_branch true x y t h = cc
