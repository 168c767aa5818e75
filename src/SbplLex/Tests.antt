-- ===== src/SbplLex/Tests.antt =====
-- Runs of the scanner on the inputs of the module's own tests.
use policy_witness.Base.{
  ℕ, ◌+◌, List, ◌++◌, Bytes, All, In, Increasing, bytes_order, ◌↔◌, inl, arith, length, true, false,
  [], ◌∷◌, ◌≡◌, refl, ap, codes, bytes_cmp,
}
use policy_witness.Base.Utf8.{is_utf8}
use policy_witness.SbplLex.{ImportScanResult, is_ws, import_scan, keyword_scan, scan_loop}
use policy_witness.SbplLex.Bounds.{keyword_scan_ends}
use policy_witness.SbplLex.Grammar.{
  Item, plain, escaped, end, group, byte, comment, text, paren, import_literal, import_computed,
  IsBlank, Reaches, IsSource, source_text, imported, all_literal,
}
use policy_witness.SbplLex.Grammar.RoundTrip.{import_scan-source_text}
use policy_witness.SbplLex.Grammar.Occurs.{Occurs, import_scan-Occurs}

scans_nested_forms :
    import_scan (codes "(if (param \"X\") (import \"b.sb\") (import \"a.sb\"))")
    ≡ record { refs = codes "a.sb" ∷ codes "b.sb" ∷ []; scan_complete = true }
unfolding import_scan is_utf8 bytes_cmp
scans_nested_forms = refl

flags_computed_argument :
    import_scan (codes "(define (pull n) (import n))\n(import \"x\\\"y.sb\") ; (import z)\n")
    ≡ record { refs = codes "x\"y.sb" ∷ []; scan_complete = false }
unfolding import_scan is_utf8
flags_computed_argument = refl

abbrev items : List Item
items =
    import_literal [] b' ' [] (plain b'a' ∷ escaped b'"' ∷ []) []
    ∷ comment (codes " (import \"no.sb\")")
    ∷ paren
    ∷ byte b'x'
    ∷ text (plain b'(' ∷ [])
    ∷ byte b')'
    ∷ import_computed (codes " ") b'\n' [] (group end (byte b'n' end))
    ∷ []

head_eq : {x y : ℕ} {xs ys : Bytes} → x ∷ xs ≡ y ∷ ys → x ≡ y
head_eq e = ap head_or_zero e
  where
    head_or_zero : Bytes → ℕ
    head_or_zero [] = 0
    head_or_zero (x ∷ xs) = x

-- A text that begins with an `x` opens no import form.
not_reached : (rest : Bytes) → ¬ Reaches (codes "import") (b'x' ∷ rest)
unfolding is_ws
not_reached rest r = go r.before r.before_blank r.splits
  where
    go :
        (before : Bytes)
        → All IsBlank before
        → b'x' ∷ rest ≡ before ++ (codes "import" ++ (r.blank ∷ r.behind))
        → ⊥
    go [] h e = absurd (omega (arith, head_eq e))
    go (c ∷ cs) h e = let same : b'x' ≡ c = head_eq e in cc (rw (← same) at h.0)

items-IsSource : IsSource items
unfolding is_ws is_utf8
items-IsSource = (
  (tt, refl, tt, (omega arith, (tt, tt)), tt, λ e. cc, refl),
  (
    omega arith,
    (
      not_reached _,
      (
        omega arith,
        (
          (omega arith, tt),
          (omega arith, (((refl, tt), refl, tt, (tt, (omega arith, tt)), tt), tt)),
        ),
      ),
    ),
  ),
)

import_scan-source_text_example :
    ((a : Bytes) → In a (import_scan (source_text items)).refs ↔ In a (imported items))
    × Increasing (import_scan (source_text items)).refs
    × ((import_scan (source_text items)).scan_complete ≡ all_literal items)
import_scan-source_text_example = import_scan-source_text items items-IsSource

abbrev nested : Bytes
nested = codes "(if x (import \"a.sb\"))"

finds_nested : In (codes "a.sb") (import_scan nested).refs
unfolding import_scan is_utf8
finds_nested = inl refl

import_scan-Occurs_example : Occurs (codes "a.sb") nested
import_scan-Occurs_example = import_scan-Occurs nested (codes "a.sb") finds_nested

keyword_scan_ends_example :
    let start : ImportScanResult = record { refs = []; scan_complete = true } in
    ((scan_loop (length nested) (codes "import") nested start).1 ≡ [])
    × ((scan_loop (length nested + 7) (codes "import") nested start).0
        ≡ keyword_scan nested (codes "import"))
keyword_scan_ends_example = keyword_scan_ends nested (codes "import") 7
