-- ===== src/Base/Digits.antt =====
-- `to_string` of an unsigned number: its decimal digits.
use Prim.Native.Nat.{ℕ, zero, suc, ◌+◌, ◌/◌, ◌%◌}
use mathlib.Core.List.{[], ◌∷◌}
use policy_witness.Base.Tests.{ltb, if◌then◌else◌}
use policy_witness.Base.Text.{Bytes}

-- The digits before `behind`; a number below the fuel has at most so many.
decimal_before : ℕ → ℕ → Bytes → Bytes
decimal_before zero n behind = behind
decimal_before (suc fuel) n behind =
    let digits = (48 + n % 10) ∷ behind in
    let rest = decimal_before fuel (n / 10) digits in if ltb n 10 then digits else rest

unfoldable pub decimal : ℕ → Bytes
unfolding decimal_before
decimal n = decimal_before (suc n) n []
