-- ===== src/SbplLex/Grammar/Strings.antt =====
-- Blanks, comments and quoted strings under the scanner's inner loops.
use policy_witness.Base.{
  ℕ, false, List, [], ◌∷◌, ◌++◌, ◌≡◌, ◌≢◌, refl, ◌∙◌, ap, arith, Bytes, All, append_assoc,
  append-nil, some, Bool-cases, inl, inr,
}
use policy_witness.SbplLex.{
  is_ws, skip_ws, skip_comment, skip_string_loop, read_name, strip_keyword,
}
use policy_witness.SbplLex.Grammar.{
  Glyph, plain, escaped, IsGlyph, quoted, spelled, IsBlank, IsComment,
}

skip_string_loop-plain :
    (c : ℕ) (t : Bytes) → (c ≢ b'"') × (c ≢ b'\\') → skip_string_loop (c ∷ t) ≡ skip_string_loop t
unfolding skip_string_loop
skip_string_loop-plain c [] h = refl
skip_string_loop-plain c (d ∷ t) h = ground arith

skip_string_loop-quote : (t : Bytes) → skip_string_loop (b'"' ∷ t) ≡ t
unfolding skip_string_loop
skip_string_loop-quote [] = refl
skip_string_loop-quote (d ∷ t) = refl

-- A quoted string is skipped whole.
pub skip_string_loop-quoted :
    (gs : List Glyph) (rest : Bytes) → All IsGlyph gs → skip_string_loop (quoted gs rest) ≡ rest
unfolding skip_string_loop
skip_string_loop-quoted [] rest h = skip_string_loop-quote rest
skip_string_loop-quoted (plain c ∷ gs) rest h =
    skip_string_loop-plain c (quoted gs rest) h.0 ∙ skip_string_loop-quoted gs rest h.1
skip_string_loop-quoted (escaped c ∷ gs) rest h = skip_string_loop-quoted gs rest h.1

read_name-plain :
    (name : Bytes) (c : ℕ) (t : Bytes)
    → (c ≢ b'"') × (c ≢ b'\\')
    → read_name name (c ∷ t) ≡ read_name (name ++ c ∷ []) t
unfolding read_name
read_name-plain name c [] h = ground arith
read_name-plain name c (d ∷ t) h = ground arith

read_name-quote : (name t : Bytes) → read_name name (b'"' ∷ t) ≡ (name, t)
unfolding read_name
read_name-quote name [] = refl
read_name-quote name (d ∷ t) = refl

-- A quoted string is read with its escapes undone.
pub read_name-quoted :
    (gs : List Glyph) (name rest : Bytes)
    → All IsGlyph gs
    → read_name name (quoted gs rest) ≡ (name ++ spelled gs, rest)
unfolding read_name
read_name-quoted [] name rest h = read_name-quote name rest ∙ rw append-nil
read_name-quoted (plain c ∷ gs) name rest h =
    read_name-plain name c (quoted gs rest) h.0
    ∙ read_name-quoted gs (name ++ c ∷ []) rest h.1
    ∙ rw append_assoc
read_name-quoted (escaped c ∷ gs) name rest h =
    read_name-quoted gs (name ++ c ∷ []) rest h.1 ∙ rw append_assoc

pub skip_comment-body :
    (body rest : Bytes) → All IsComment body → skip_comment (body ++ (b'\n' ∷ rest)) ≡ b'\n' ∷ rest
unfolding skip_comment
skip_comment-body [] rest h = refl
skip_comment-body (c ∷ cs) rest h = ground (arith, skip_comment-body cs rest)

-- Blanks are skipped up to a byte that is none.
pub skip_ws-blanks :
    (blanks : Bytes) (c : ℕ) (rest : Bytes)
    → All IsBlank blanks
    → is_ws c ≡ false
    → skip_ws (blanks ++ (c ∷ rest)) ≡ c ∷ rest
unfolding skip_ws
skip_ws-blanks [] c rest h k = rw k
skip_ws-blanks (b ∷ bs) c rest h k = rw h.0 (skip_ws-blanks bs c rest h.1 k)

pub strip_keyword-append : (ks rest : Bytes) → strip_keyword ks (ks ++ rest) ≡ some rest
unfolding strip_keyword
strip_keyword-append [] rest = refl
strip_keyword-append (k ∷ ks) rest = ground (arith, strip_keyword-append ks rest)

pub strip_keyword-splits : (ks bs rest : Bytes) → strip_keyword ks bs ≡ some rest → bs ≡ ks ++ rest
unfolding strip_keyword
strip_keyword-splits [] bs rest h = ground arith
strip_keyword-splits (k ∷ ks) [] rest h = cc
strip_keyword-splits (k ∷ ks) (b ∷ bs) rest h = ground (arith, strip_keyword-splits ks bs rest)

pub skip_ws-splits :
    (bs : Bytes) → (blanks : Bytes) × All IsBlank blanks × (bs ≡ blanks ++ skip_ws bs)
unfolding skip_ws
skip_ws-splits [] = ([], tt, refl)
skip_ws-splits (b ∷ bs) = elim (Bool-cases (is_ws b)) [
  | inl blank ↦
      let (blanks, all_blank, e) = skip_ws-splits bs in
      (b ∷ blanks, (blank, all_blank), rw blank (ap (◌∷◌ b) e))
  | inr more ↦ ([], tt, rw more)
]
