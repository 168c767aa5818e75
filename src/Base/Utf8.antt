-- ===== src/Base/Utf8.antt =====
-- Which bytes `String::from_utf8` accepts: Unicode's table of well-formed UTF-8 sequences.
use Prim.Native.Nat.{ℕ, zero, suc}
use mathlib.Core.Bool.{Bool, true, false, ◌&&◌}
use mathlib.Core.List.{[], ◌∷◌}
use policy_witness.Base.Tests.{leb, ◌==◌, if◌then◌else◌}
use policy_witness.Base.Text.{Bytes}

-- What a leading byte asks for: that it is one, the number of bytes behind it, and the range of
-- the first of them.
record Lead : Type 0 where
  legal : Bool
  behind : ℕ
  low : ℕ
  high : ℕ

abbrev within : ℕ → ℕ → ℕ → Bool
within lo hi b = leb lo b && leb b hi

abbrev leads : ℕ → ℕ → ℕ → Lead
leads n lo hi = record { legal = true; behind = n; low = lo; high = hi }

lead : ℕ → Lead
lead b =
    if leb b 0x7f
    then leads 0 0x80 0xbf
    else if within 0xc2 0xdf b
    then leads 1 0x80 0xbf
    else if b == 0xe0
    then leads 2 0xa0 0xbf
    else if b == 0xed
    then leads 2 0x80 0x9f
    else if within 0xe1 0xef b
    then leads 2 0x80 0xbf
    else if b == 0xf0
    then leads 3 0x90 0xbf
    else if within 0xf1 0xf3 b
    then leads 3 0x80 0xbf
    else if b == 0xf4
    then leads 3 0x80 0x8f
    else record { legal = false; behind = 0; low = 0x80; high = 0xbf }

-- With so many bytes of a sequence still to come, the next one in the range given.
utf8_from : ℕ → ℕ → ℕ → Bytes → Bool
utf8_from zero lo hi [] = true
utf8_from (suc k) lo hi [] = false
utf8_from zero lo hi (b ∷ bs) = let l = lead b in l.legal && utf8_from l.behind l.low l.high bs
utf8_from (suc k) lo hi (b ∷ bs) = within lo hi b && utf8_from k 0x80 0xbf bs

unfoldable pub is_utf8 : Bytes → Bool
unfolding utf8_from lead
is_utf8 = utf8_from 0 0x80 0xbf
