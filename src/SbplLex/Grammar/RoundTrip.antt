-- ===== src/SbplLex/Grammar/RoundTrip.antt =====
-- The scan of a text of the grammar finds the import names of the grammar.
use policy_witness.Base.{
  ℕ, ◌+◌, ◌-◌, ◌≤◌, true, false, List, [], ◌∷◌, ◌++◌, ◌≡◌, ◌≢◌, ◌↔◌, ◌⊎◌, refl, ◌∙◌, ap, arith,
  Bytes, codes, All, In, length, set_insert, bytes_order, Increasing, Option, none, some,
  In-set_insert, set_insert-Increasing,
}
use policy_witness.SbplLex.{
  ImportScanResult, FormMatch, literal, non_literal, try_match_form, at_form, scan_step, scan_loop,
  keyword_scan, import_scan,
}
use policy_witness.SbplLex.Bounds.{scan_loop_fuel, length-scan_step}
use policy_witness.SbplLex.Grammar.{
  Glyph, quoted, spelled, IsComment, IsGlyph, Item, byte, comment, text, paren, import_literal,
  import_computed, IsItem, IsSource, item_text, source_text, imported, all_literal,
}
use policy_witness.SbplLex.Grammar.Strings.{skip_string_loop-quoted, skip_comment-body}
use policy_witness.SbplLex.Grammar.Forms.{
  try_match_form-literal, try_match_form-computed, try_match_form-none,
}

abbrev import_word : Bytes
import_word = codes "import"

-- The scan with as many rounds as there are bytes.
abbrev scanned : Bytes → ImportScanResult → ImportScanResult
scanned bs r = (scan_loop (length bs) import_word bs r).0

scan_loop_enough :
    (fuel : ℕ) (bs : Bytes) (r : ImportScanResult)
    → length bs ≤ fuel
    → (scan_loop fuel import_word bs r).0 ≡ scanned bs r
scan_loop_enough fuel bs r h =
    let split : fuel ≡ length bs + (fuel - length bs) = omega arith in
    rw split (
      ap (λ (q : ImportScanResult × Bytes). q.0)
        (scan_loop_fuel (length bs) (fuel - length bs) import_word bs r (omega arith)))

scanned-cons :
    (b : ℕ) (bs : Bytes) (r : ImportScanResult)
    → scanned (b ∷ bs) r ≡ scanned (scan_step import_word b bs r).1 (scan_step import_word b bs r).0
unfolding scan_loop
scanned-cons b bs r =
    let next = scan_step import_word b bs r in
    scan_loop_enough (length bs) next.1 next.0 (length-scan_step import_word b bs r)

step_to :
    (b : ℕ) (bs : Bytes) (r r' : ImportScanResult) (rest : Bytes)
    → scan_step import_word b bs r ≡ (r', rest)
    → scanned (b ∷ bs) r ≡ scanned rest r'
step_to b bs r r' rest e =
    scanned-cons b bs r ∙ ap (λ (q : ImportScanResult × Bytes). scanned q.1 q.0) e

scan_step-byte :
    (c : ℕ) (rest : Bytes) (r : ImportScanResult)
    → (c ≢ b';') × (c ≢ b'"') × (c ≢ b'(')
    → scan_step import_word c rest r ≡ (r, rest)
unfolding scan_step
scan_step-byte c rest r h = ground arith

scan_step-comment :
    (body rest : Bytes) (r : ImportScanResult)
    → All IsComment body
    → scan_step import_word b';' (body ++ (b'\n' ∷ rest)) r ≡ (r, b'\n' ∷ rest)
unfolding scan_step
scan_step-comment body rest r h = rw (skip_comment-body body rest h)

scan_step-text :
    (gs : List Glyph) (rest : Bytes) (r : ImportScanResult)
    → All IsGlyph gs
    → scan_step import_word b'"' (quoted gs rest) r ≡ (r, rest)
unfolding scan_step
scan_step-text gs rest r h = rw (skip_string_loop-quoted gs rest h)

scan_step-paren :
    (o : Option FormMatch) (bs : Bytes) (r : ImportScanResult)
    → try_match_form (b'(' ∷ bs) import_word ≡ o
    → scan_step import_word b'(' bs r ≡ at_form o bs r
unfolding scan_step
scan_step-paren o bs r e = ap (λ (m : Option FormMatch). at_form m bs r) e

-- What one item adds to the result.
abbrev noted : Item → ImportScanResult → ImportScanResult
noted (import_literal _ _ _ gs _) r = record r { refs = set_insert (spelled gs) r.refs }
noted (import_computed _ _ _ _) r = record r { scan_complete = false }
noted _ r = r

abbrev noted_all : List Item → ImportScanResult → ImportScanResult
noted_all [] r = r
noted_all (i ∷ is) r = noted_all is (noted i r)

scanned-item_text :
    (i : Item) (rest : Bytes) (r : ImportScanResult)
    → IsItem i rest
    → scanned (item_text i rest) r ≡ scanned rest (noted i r)
unfolding at_form
scanned-item_text (byte c) rest r h = step_to c rest r r rest (scan_step-byte c rest r h)
scanned-item_text (comment body) rest r h =
    step_to b';' (body ++ (b'\n' ∷ rest)) r r (b'\n' ∷ rest) (scan_step-comment body rest r h)
    ∙ step_to b'\n' rest r r rest (scan_step-byte b'\n' rest r (omega arith))
scanned-item_text (text gs) rest r h =
    step_to b'"' (quoted gs rest) r r rest (scan_step-text gs rest r h)
scanned-item_text paren rest r h =
    step_to b'(' rest r r rest (scan_step-paren none rest r (try_match_form-none rest h))
scanned-item_text (import_literal before blank more gs after) rest r h = step_to b'(' _ r _ rest (
    scan_step-paren (some (literal (spelled gs) rest)) _ r
      (try_match_form-literal before blank more gs after rest h.0 h.1 h.2 h.3 h.4 h.5 h.6))
scanned-item_text (import_computed before blank more k) rest r h = step_to b'(' _ r _ rest (
    scan_step-paren (some (non_literal rest)) _ r
      (try_match_form-computed before blank more k rest h.0 h.1 h.2 h.3 h.4))

scanned-source_text :
    (is : List Item) (r : ImportScanResult)
    → IsSource is
    → scanned (source_text is) r ≡ noted_all is r
unfolding scan_loop
scanned-source_text [] r h = refl
scanned-source_text (i ∷ is) r h =
    scanned-item_text i (source_text is) r h.0 ∙ scanned-source_text is (noted i r) h.1

noted_all-refs :
    (a : Bytes) (is : List Item) (r : ImportScanResult)
    → In a (noted_all is r).refs ↔ (In a (imported is) ⊎ In a r.refs)
noted_all-refs a [] r = ground arith
noted_all-refs a (import_literal _ _ _ gs _ ∷ is) r = ground (
  arith,
  noted_all-refs a is (record r { refs = set_insert (spelled gs) r.refs }),
  In-set_insert a (spelled gs) r.refs,
)
noted_all-refs a (import_computed _ _ _ _ ∷ is) r =
    noted_all-refs a is (record r { scan_complete = false })
noted_all-refs a (_ ∷ is) r = noted_all-refs a is r

noted_all-Increasing :
    (is : List Item) (r : ImportScanResult) → Increasing r.refs → Increasing (noted_all is r).refs
noted_all-Increasing [] r h = h
noted_all-Increasing (import_literal _ _ _ gs _ ∷ is) r h =
    noted_all-Increasing is _ (set_insert-Increasing (spelled gs) r.refs h)
noted_all-Increasing (import_computed _ _ _ _ ∷ is) r h =
    noted_all-Increasing is (record r { scan_complete = false }) h
noted_all-Increasing (_ ∷ is) r h = noted_all-Increasing is r h

noted_all-computed :
    (is : List Item) (r : ImportScanResult)
    → r.scan_complete ≡ false
    → (noted_all is r).scan_complete ≡ false
noted_all-computed [] r h = h
noted_all-computed (import_literal _ _ _ _ _ ∷ is) r h = noted_all-computed is _ h
noted_all-computed (import_computed _ _ _ _ ∷ is) r h = noted_all-computed is _ refl
noted_all-computed (_ ∷ is) r h = noted_all-computed is r h

noted_all_complete :
    (is : List Item) (r : ImportScanResult)
    → r.scan_complete ≡ true
    → (noted_all is r).scan_complete ≡ all_literal is
noted_all_complete [] r h = h
noted_all_complete (import_literal _ _ _ _ _ ∷ is) r h = noted_all_complete is _ h
noted_all_complete (import_computed _ _ _ _ ∷ is) r h = noted_all-computed is _ refl
noted_all_complete (_ ∷ is) r h = noted_all_complete is r h

-- On the text of a well-formed source of the grammar (plain bytes, comments, quoted strings,
-- parentheses that open no import form, import forms with a literal or a computed argument and any
-- blanks) the scan collects exactly the names of its literal import forms, escapes undone, in
-- increasing order without repetition, and it reports a complete scan exactly when no import form
-- has a computed argument.
pub import_scan-source_text :
    (is : List Item)
    → IsSource is
    → ((a : Bytes) → In a (import_scan (source_text is)).refs ↔ In a (imported is))
      × Increasing (import_scan (source_text is)).refs
      × ((import_scan (source_text is)).scan_complete ≡ all_literal is)
unfolding import_scan keyword_scan
import_scan-source_text is h =
    let start : ImportScanResult = record { refs = []; scan_complete = true } in
    let found = scanned-source_text is start h in
    rw found (
      λ a. ground (arith, noted_all-refs a is start),
      noted_all-Increasing is start tt,
      noted_all_complete is start refl,
    )
