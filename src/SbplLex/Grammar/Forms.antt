-- ===== src/SbplLex/Grammar/Forms.antt =====
-- Import forms of the grammar under the scanner's matchers.
use policy_witness.Base.{
  ℕ, suc, ◌+◌, ◌-◌, ◌≤◌, true, false, List, [], ◌∷◌, ◌++◌, ◌≡◌, ◌≢◌, refl, sym, ◌∙◌, ap, arith,
  Bytes, codes, All, Option, some, none, length,
}
use policy_witness.Base.Utf8.{is_utf8}
use policy_witness.SbplLex.{
  is_ws, skip_ws, after_keyword, strip_keyword, require_ws, checked_name, try_match_keyword_form,
  form_step, walk_form, match_argument, try_match_form, literal, non_literal, ◌>>=◌,
}
use policy_witness.SbplLex.Bounds.{walk_form_fuel, length-form_step, >>=-eq-some}
use policy_witness.SbplLex.Grammar.{
  Glyph, IsGlyph, quoted, spelled, IsBlank, IsComment, Code, end, byte, comment, text, group,
  IsCode, code_text, IsComputed, Reaches,
}
use policy_witness.SbplLex.Grammar.Strings.{
  skip_string_loop-quoted, read_name-quoted, skip_comment-body, skip_ws-blanks,
  strip_keyword-append, strip_keyword-splits, skip_ws-splits,
}
use native.Mathlib.Numerals.{add-one}

-- The walk with as much fuel as there are bytes.
abbrev walked : ℕ → Bytes → Bytes
walked depth bs = walk_form (length bs) depth bs

walk_form_enough :
    (fuel depth : ℕ) (bs : Bytes) → length bs ≤ fuel → walk_form fuel depth bs ≡ walked depth bs
walk_form_enough fuel depth bs h =
    let split : fuel ≡ length bs + (fuel - length bs) = omega arith in
    rw split (walk_form_fuel (length bs) (fuel - length bs) depth bs (omega arith))

walked-cons :
    (depth b : ℕ) (bs : Bytes)
    → walked (suc depth) (b ∷ bs)
      ≡ walked (form_step (suc depth) b bs).0 (form_step (suc depth) b bs).1
unfolding walk_form
walked-cons depth b bs =
    let next = form_step (suc depth) b bs in
    walk_form_enough (length bs) next.0 next.1 (length-form_step (suc depth) b bs)

walked_zero : (bs : Bytes) → walked 0 bs ≡ bs
unfolding walk_form
walked_zero [] = refl
walked_zero (b ∷ bs) = refl

form_step-comment :
    (depth : ℕ) (body rest : Bytes)
    → All IsComment body
    → form_step depth b';' (body ++ (b'\n' ∷ rest)) ≡ (depth, b'\n' ∷ rest)
unfolding form_step
form_step-comment depth body rest h = rw (skip_comment-body body rest h)

form_step-text :
    (depth : ℕ) (gs : List Glyph) (rest : Bytes)
    → All IsGlyph gs
    → form_step depth b'"' (quoted gs rest) ≡ (depth, rest)
unfolding form_step
form_step-text depth gs rest h = rw (skip_string_loop-quoted gs rest h)

form_step-inert :
    (depth c : ℕ) (rest : Bytes)
    → (c ≢ b';') × (c ≢ b'"') × (c ≢ b'(') × (c ≢ b')')
    → form_step depth c rest ≡ (depth, rest)
unfolding form_step
form_step-inert depth c rest h = ground arith

form_step-open : (depth : ℕ) (rest : Bytes) → form_step depth b'(' rest ≡ (suc depth, rest)
unfolding form_step
form_step-open depth rest = rw add-one

form_step-close : (depth : ℕ) (rest : Bytes) → form_step (suc depth) b')' rest ≡ (depth, rest)
unfolding form_step
form_step-close depth rest = ground arith

step_to :
    (depth b : ℕ) (bs : Bytes) (d : ℕ) (rest : Bytes)
    → form_step (suc depth) b bs ≡ (d, rest)
    → walked (suc depth) (b ∷ bs) ≡ walked d rest
step_to depth b bs d rest e = walked-cons depth b bs ∙ ap (λ (q : ℕ × Bytes). walked q.0 q.1) e

-- The walk passes balanced code at its own depth.
walked-code_text :
    (k : Code) (depth : ℕ) (rest : Bytes)
    → IsCode k
    → walked (suc depth) (code_text k rest) ≡ walked (suc depth) rest
walked-code_text end depth rest h = refl
walked-code_text (byte c k) depth rest h =
    step_to depth c (code_text k rest) (suc depth) (code_text k rest)
      (form_step-inert (suc depth) c (code_text k rest) h.0)
    ∙ walked-code_text k depth rest h.1
walked-code_text (comment body k) depth rest h =
    let behind = code_text k rest in
    step_to depth b';' (body ++ (b'\n' ∷ behind)) (suc depth) (b'\n' ∷ behind)
      (form_step-comment (suc depth) body behind h.0)
    ∙ step_to depth b'\n' behind (suc depth) behind
        (form_step-inert (suc depth) b'\n' behind (omega arith))
    ∙ walked-code_text k depth rest h.1
walked-code_text (text gs k) depth rest h =
    let behind = code_text k rest in
    step_to depth b'"' (quoted gs behind) (suc depth) behind
      (form_step-text (suc depth) gs behind h.0)
    ∙ walked-code_text k depth rest h.1
walked-code_text (group inner k) depth rest h =
    let behind = code_text k rest in
    let inside = code_text inner (b')' ∷ behind) in
    step_to depth b'(' inside (suc (suc depth)) inside (form_step-open (suc depth) inside)
    ∙ walked-code_text inner (suc depth) (b')' ∷ behind) h.0
    ∙ step_to (suc depth) b')' behind (suc depth) behind (form_step-close (suc depth) behind)
    ∙ walked-code_text k depth rest h.1

walked_form : (k : Code) (rest : Bytes) → IsCode k → walked 1 (code_text k (b')' ∷ rest)) ≡ rest
walked_form k rest h =
    walked-code_text k 0 (b')' ∷ rest) h
    ∙ step_to 0 b')' rest 0 rest (form_step-close 0 rest)
    ∙ walked_zero rest

abbrev import_word : Bytes
import_word = codes "import"

after_keyword-blanks :
    (before : Bytes) (blank : ℕ) (more : Bytes) (c : ℕ) (rest : Bytes)
    → All IsBlank before
    → IsBlank blank
    → All IsBlank more
    → is_ws c ≡ false
    → after_keyword import_word (before ++ (import_word ++ (blank ∷ (more ++ (c ∷ rest)))))
      ≡ some (c ∷ rest)
unfolding after_keyword
after_keyword-blanks before blank more c rest h i j k =
    let behind = blank ∷ (more ++ (c ∷ rest)) in
    ap (λ (t : Bytes). strip_keyword import_word t >>= require_ws)
      (skip_ws-blanks before b'i' (codes "mport" ++ behind) h (unfold is_ws in refl))
    ∙ ap (λ (o : Option Bytes). o >>= require_ws) (strip_keyword-append import_word behind)
    ∙ rw i (ap some (skip_ws-blanks more c rest j k))

-- What the keyword matcher takes is the keyword with blanks about it.
pub after_keyword-Reaches :
    (keyword bs rest : Bytes) → after_keyword keyword bs ≡ some rest → Reaches keyword bs
unfolding after_keyword
after_keyword-Reaches keyword bs rest h =
    let (found, strips, blanks) = >>=-eq-some (strip_keyword keyword (skip_ws bs)) require_ws h in
    go found (strip_keyword-splits keyword (skip_ws bs) found strips) blanks
  where
    go :
        (found : Bytes)
        → skip_ws bs ≡ keyword ++ found
        → require_ws found ≡ some rest
        → Reaches keyword bs
    go [] e q = cc
    go (c ∷ cs) e q =
        let (before, all_blank, split) = skip_ws-splits bs in
        record {
          before = before;
          blank = c;
          behind = cs;
          before_blank = all_blank;
          is_blank = ground arith;
          splits = split ∙ ap (◌++◌ before) e;
        }

checked_name-utf8 : (name : Bytes) → name ≢ [] → is_utf8 name ≡ true → checked_name name ≡ some name
unfolding checked_name
checked_name-utf8 [] h k = absurd (h refl)
checked_name-utf8 (b ∷ bs) h k = rw k

try_match_keyword_form-text :
    (keyword bs : Bytes) (gs : List Glyph) (after rest : Bytes)
    → after_keyword keyword bs ≡ some (b'"' ∷ quoted gs (after ++ (b')' ∷ rest)))
    → All IsGlyph gs
    → All IsBlank after
    → spelled gs ≢ []
    → is_utf8 (spelled gs) ≡ true
    → try_match_keyword_form (b'(' ∷ bs) keyword ≡ some (spelled gs, rest)
unfolding try_match_keyword_form
try_match_keyword_form-text keyword bs gs after rest reaches h a ne utf8 = rw reaches (
    rw (read_name-quoted gs [] (after ++ (b')' ∷ rest)) h) (
      rw (skip_ws-blanks after b')' rest a (unfold is_ws in refl))
        (rw (checked_name-utf8 (spelled gs) ne utf8))))

-- A literal import form matches with its name, and the scan goes on behind its `)`.
pub try_match_form-literal :
    (before : Bytes) (blank : ℕ) (more : Bytes) (gs : List Glyph) (after rest : Bytes)
    → All IsBlank before
    → IsBlank blank
    → All IsBlank more
    → All IsGlyph gs
    → All IsBlank after
    → spelled gs ≢ []
    → is_utf8 (spelled gs) ≡ true
    → try_match_form
        (b'('
          ∷ (before
              ++ (codes "import"
                  ++ (blank ∷ (more ++ (b'"' ∷ quoted gs (after ++ (b')' ∷ rest))))))))
        (codes "import")
      ≡ some (literal (spelled gs) rest)
unfolding try_match_form
try_match_form-literal before blank more gs after rest h i j g a ne utf8 =
    let behind = quoted gs (after ++ (b')' ∷ rest)) in
    let reaches = after_keyword-blanks before blank more b'"' behind h i j (unfold is_ws in refl) in
    let form = b'(' ∷ (before ++ (import_word ++ (blank ∷ (more ++ (b'"' ∷ behind))))) in
    ap (λ (o : Option Bytes). o >>= match_argument form import_word) reaches
    ∙ ap (λ (o : Option (Bytes × Bytes)). o >>= (λ m. some (literal m.0 m.1)))
        (try_match_keyword_form-text import_word
          (before ++ (import_word ++ (blank ∷ (more ++ (b'"' ∷ behind))))) gs after rest reaches g a
          ne utf8)

match_argument-computed :
    (form keyword : Bytes) (c : ℕ) (rest : Bytes)
    → c ≢ b'"'
    → match_argument form keyword (c ∷ rest) ≡ some (non_literal (walked 1 (c ∷ rest)))
unfolding match_argument
match_argument-computed form keyword c rest h = ground arith

-- A computed argument begins with a byte that is neither a blank nor a quote.
computed_head :
    (k : Code) (rest : Bytes)
    → IsCode k
    → IsComputed k
    → (c : ℕ) × (t : Bytes) × (code_text k (b')' ∷ rest) ≡ c ∷ t) × (is_ws c ≡ false) × (c ≢ b'"')
unfolding is_ws
computed_head end rest h d = (b')', rest, refl, refl, omega arith)
computed_head (byte c k) rest h d = (c, code_text k (b')' ∷ rest), refl, d, h.0.1)
computed_head (comment body k) rest h d = (b';', _, refl, refl, omega arith)
computed_head (text gs k) rest h d = absurd d
computed_head (group inner k) rest h d = (b'(', _, refl, refl, omega arith)

-- A form with a computed argument is noticed, and the scan goes on behind its `)`.
pub try_match_form-computed :
    (before : Bytes) (blank : ℕ) (more : Bytes) (k : Code) (rest : Bytes)
    → All IsBlank before
    → IsBlank blank
    → All IsBlank more
    → IsCode k
    → IsComputed k
    → try_match_form
        (b'(' ∷ (before ++ (codes "import" ++ (blank ∷ (more ++ code_text k (b')' ∷ rest))))))
        (codes "import")
      ≡ some (non_literal rest)
unfolding try_match_form
try_match_form-computed before blank more k rest h i j code computed =
    let (c, t, e, not_blank, not_quote) = computed_head k rest code computed in
    let argument = code_text k (b')' ∷ rest) in
    let form = b'(' ∷ (before ++ (import_word ++ (blank ∷ (more ++ argument)))) in
    let reaches : after_keyword import_word
          (before ++ (import_word ++ (blank ∷ (more ++ argument))))
        ≡ some argument =
      rw e (after_keyword-blanks before blank more c t h i j not_blank) in
    ap (λ (o : Option Bytes). o >>= match_argument form import_word) reaches
    ∙ ap (match_argument form import_word) e
    ∙ match_argument-computed form import_word c t not_quote
    ∙ ap (λ (b : Bytes). some (non_literal (walked 1 b))) (sym e)
    ∙ ap (λ (b : Bytes). some (non_literal b)) (walked_form k rest code)

-- A `(` that opens no import form is passed over.
pub try_match_form-none :
    (rest : Bytes)
    → ¬ Reaches (codes "import") rest
    → try_match_form (b'(' ∷ rest) (codes "import") ≡ none
unfolding try_match_form
try_match_form-none rest h = go (after_keyword import_word rest) refl
  where
    go :
        (o : Option Bytes)
        → after_keyword import_word rest ≡ o
        → (o >>= match_argument (b'(' ∷ rest) import_word) ≡ none
    go none e = refl
    go (some found) e = absurd (h (after_keyword-Reaches import_word rest found e))
