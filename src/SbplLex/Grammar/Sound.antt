-- ===== src/SbplLex/Grammar/Sound.antt =====
-- What the scanner's inner functions say of the text that they passed, on any source.
use policy_witness.Base.{
  ℕ, Bool, true, false, List, [], ◌∷◌, ◌++◌, ◌≡◌, inl, inr, refl, sym, ◌∙◌, ap, arith, Bytes, All,
  some, append_assoc, append-nil, Bool-cases, bytes_order, ◌==◌, if◌then◌else◌,
}
use policy_witness.SbplLex.{
  is_ws, skip_ws, skip_comment, skip_string_loop, require_ws, after_keyword, strip_keyword,
  read_name,
}
use policy_witness.SbplLex.Bounds.{>>=-eq-some}
use policy_witness.SbplLex.Grammar.{Glyph, plain, escaped, IsGlyph, quoted, spelled, IsBlank}
use policy_witness.SbplLex.Grammar.Strings.{skip_ws-splits, strip_keyword-splits}

-- The position `r` is in the slice `s`.
pub record Suffix (r s : Bytes) : Type 0 where
  pub front : Bytes
  pub splits : s ≡ front ++ r

pub Suffix_refl : (s : Bytes) → Suffix s s
Suffix_refl s = record { front = []; splits = refl }

pub Suffix_cons : (b : ℕ) {r s : Bytes} → Suffix r s → Suffix r (b ∷ s)
Suffix_cons b t = record { front = b ∷ t.front; splits = ap (◌∷◌ b) t.splits }

pub Suffix_trans : {r s t : Bytes} → Suffix r s → Suffix s t → Suffix r t
Suffix_trans {r} p q = record {
  front = q.front ++ p.front;
  splits = q.splits ∙ ap (◌++◌ q.front) p.splits ∙ sym (append_assoc q.front p.front r);
}

-- By the two values of a test.
pub Suffix_if : (b : Bool) (x y s : Bytes) → Suffix x s → Suffix y s → Suffix (if b then x else y) s
Suffix_if true x y s p q = p
Suffix_if false x y s p q = q

pub skip_comment-Suffix : (s : Bytes) → Suffix (skip_comment s) s
unfolding skip_comment
skip_comment-Suffix [] = Suffix_refl []
skip_comment-Suffix (b ∷ s) =
    Suffix_if (b == b'\n') (b ∷ s) (skip_comment s) (b ∷ s) (Suffix_refl (b ∷ s))
      (Suffix_cons b (skip_comment-Suffix s))

pub skip_string_loop-Suffix : (s : Bytes) → Suffix (skip_string_loop s) s
unfolding skip_string_loop
skip_string_loop-Suffix [] = Suffix_refl []
skip_string_loop-Suffix (b ∷ []) = Suffix_cons b (Suffix_refl [])
skip_string_loop-Suffix (b ∷ c ∷ s) =
    Suffix_if (b == b'\\') _ _ (b ∷ c ∷ s)
      (Suffix_cons b (Suffix_cons c (skip_string_loop-Suffix s)))
      (Suffix_if (b == b'"') _ _ (b ∷ c ∷ s) (Suffix_cons b (Suffix_refl (c ∷ s)))
        (Suffix_cons b (skip_string_loop-Suffix (c ∷ s))))

pub skip_ws-Suffix : (s : Bytes) → Suffix (skip_ws s) s
skip_ws-Suffix s = let (front, _, e) = skip_ws-splits s in record { front = front; splits = e }

require_ws-splits :
    (s rest : Bytes)
    → require_ws s ≡ some rest
    → (blank : ℕ) × (more : Bytes) × IsBlank blank × All IsBlank more × (s ≡ blank ∷ (more ++ rest))
unfolding require_ws
require_ws-splits [] rest h = cc
require_ws-splits (b ∷ s) rest h = elim (Bool-cases (is_ws b)) [
  | inl blank ↦
      let (more, all_blank, e) = skip_ws-splits s in
      (b, more, blank, all_blank, ap (◌∷◌ b) (e ∙ ap (◌++◌ more) (ground arith)))
  | inr other ↦ cc (rw (other, require_ws) at h)
]

-- What stands in front of the argument.
pub record Opened (keyword bs rest : Bytes) : Type 0 where
  pub before : Bytes
  pub blank : ℕ
  pub more : Bytes
  pub before_blank : All IsBlank before
  pub is_blank : IsBlank blank
  pub more_blank : All IsBlank more
  pub splits : bs ≡ before ++ (keyword ++ (blank ∷ (more ++ rest)))

pub after_keyword-Opened :
    (keyword bs rest : Bytes) → after_keyword keyword bs ≡ some rest → Opened keyword bs rest
unfolding after_keyword
after_keyword-Opened keyword bs rest h =
    let (found, strips, blanks) = >>=-eq-some (strip_keyword keyword (skip_ws bs)) require_ws h in
    let (before, before_blank, e) = skip_ws-splits bs in
    let (blank, more, is_blank, more_blank, behind) = require_ws-splits found rest blanks in
    record {
      before = before;
      blank = blank;
      more = more;
      before_blank = before_blank;
      is_blank = is_blank;
      more_blank = more_blank;
      splits =
          e
          ∙ ap (◌++◌ before)
              (strip_keyword-splits keyword (skip_ws bs) found strips ∙ ap (◌++◌ keyword) behind);
    }

abbrev glyph_text : Glyph → Bytes → Bytes
glyph_text (plain c) bs = c ∷ bs
glyph_text (escaped c) bs = b'\\' ∷ c ∷ bs

-- What was read up to a closing quote with `rest` behind it.
pub record Closed (name bs name' rest : Bytes) : Type 0 where
  pub glyphs : List Glyph
  pub all_glyphs : All IsGlyph glyphs
  pub reads : bs ≡ quoted glyphs rest
  pub spells : name' ≡ name ++ spelled glyphs

Closed-step :
    (g : Glyph) (name name' bs rest : Bytes)
    → IsGlyph g
    → Closed (name ++ spelled (g ∷ [])) bs name' rest
    → Closed name (glyph_text g bs) name' rest
Closed-step (plain c) name name' bs rest h q = record {
  glyphs = plain c ∷ q.glyphs;
  all_glyphs = (h, q.all_glyphs);
  reads = ap (◌∷◌ c) q.reads;
  spells = q.spells ∙ append_assoc name (c ∷ []) (spelled q.glyphs);
}
Closed-step (escaped c) name name' bs rest h q = record {
  glyphs = escaped c ∷ q.glyphs;
  all_glyphs = (h, q.all_glyphs);
  reads = ap (λ (t : Bytes). b'\\' ∷ c ∷ t) q.reads;
  spells = q.spells ∙ append_assoc name (c ∷ []) (spelled q.glyphs);
}

pub read_name-Closed :
    (bs name name' : Bytes) (c : ℕ) (t : Bytes)
    → read_name name bs ≡ (name', c ∷ t)
    → Closed name bs name' (c ∷ t)
unfolding read_name
read_name-Closed [] name name' c t h = absurd (ground arith)
read_name-Closed (b ∷ []) name name' c t h = absurd (ground arith)
read_name-Closed (b ∷ d ∷ bs) name name' c t h = elim (Bool-cases (b == b'\\')) [
  | inl slash ↦
      let e : b ≡ b'\\' = ground arith in
      rw e (
        Closed-step (escaped d) name name' bs (c ∷ t) tt
          (read_name-Closed bs (name ++ d ∷ []) name' c t (rw (slash, read_name) at h)))
  | inr other ↦ elim (Bool-cases (b == b'"')) [
    | inl quote ↦ record {
      glyphs = [];
      all_glyphs = tt;
      reads = ground arith;
      spells = ground (arith, append-nil name);
    }
    | inr inside ↦
        Closed-step (plain b) name name' (d ∷ bs) (c ∷ t) (ground arith) (
          read_name-Closed (d ∷ bs) (name ++ b ∷ []) name' c t (rw (other, inside, read_name) at h))
  ]
]
