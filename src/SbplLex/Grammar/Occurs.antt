-- ===== src/SbplLex/Grammar/Occurs.antt =====
-- On any source at all: what the scan collects stands there as a literal import form.
use policy_witness.Base.{
  ℕ, zero, suc, true, List, [], ◌∷◌, ◌++◌, ◌≡◌, ◌≢◌, inl, inr, refl, sym, ◌∙◌, ap, arith, subst,
  Bytes, codes, In, length, Option, none, some, In-set_insert, Bool-cases, bytes_order, ◌==◌,
  if_rule,
}
use policy_witness.Base.Utf8.{is_utf8}
use policy_witness.SbplLex.{
  ImportScanResult, FormMatch, literal, non_literal, skip_ws, after_keyword, read_name, expect,
  checked_name, form_step, walk_form, match_argument, try_match_form, try_match_keyword_form,
  at_form, scan_step, scan_loop, keyword_scan, import_scan,
}
use policy_witness.SbplLex.Bounds.{MatchedForm, try_match_keyword_form-MatchedForm, >>=-eq-some}
use policy_witness.SbplLex.Grammar.{
  Glyph, plain, escaped, quoted, spelled, import_literal, item_text, IsItem,
}
use policy_witness.SbplLex.Grammar.Strings.{skip_ws-splits}
use policy_witness.SbplLex.Grammar.Sound.{
  Suffix, Suffix_refl, Suffix_cons, Suffix_trans, skip_comment-Suffix, skip_string_loop-Suffix,
  Opened, after_keyword-Opened, read_name-Closed,
}

-- `bs` begins with a literal import form of the name, and `next` is behind it.
pub record LiteralForm (name bs next : Bytes) : Type 0 where
  pub before : Bytes
  pub blank : ℕ
  pub more : Bytes
  pub glyphs : List Glyph
  pub after : Bytes
  pub form : IsItem (import_literal before blank more glyphs after) next
  pub spells : spelled glyphs ≡ name
  pub splits : bs ≡ item_text (import_literal before blank more glyphs after) next

-- The name stands in the source as a literal import form.
pub record Occurs (name source : Bytes) : Type 0 where
  pub front : Bytes
  pub rest : Bytes
  pub behind : Bytes
  pub splits : source ≡ front ++ rest
  pub here : LiteralForm name rest behind

expect-splits : (b : ℕ) (bs rest : Bytes) → expect b bs ≡ some rest → bs ≡ b ∷ rest
unfolding expect
expect-splits b [] rest h = cc
expect-splits b (c ∷ cs) rest h = ground arith

checked_name-IsName :
    (read name : Bytes)
    → checked_name read ≡ some name
    → (read ≡ name) × (read ≢ []) × (is_utf8 read ≡ true)
unfolding checked_name
checked_name-IsName [] name h = cc
checked_name-IsName (b ∷ bs) name h = (ground arith, ground arith, ground arith)

ends_with_byte :
    (s : Bytes) (c : ℕ) (t : Bytes) → skip_ws s ≡ c ∷ t → (d : ℕ) × (u : Bytes) × (s ≡ d ∷ u)
unfolding skip_ws
ends_with_byte [] c t h = absurd (ground arith)
ends_with_byte (d ∷ u) c t h = (d, u, refl)

MatchedForm-LiteralForm :
    (bs name next : Bytes)
    → MatchedForm (codes "import") bs name next
    → LiteralForm name (b'(' ∷ bs) next
MatchedForm-LiteralForm bs name next m =
    let read = read_name [] m.body in
    let tail = expect-splits b')' (skip_ws read.1) next m.closes in
    let (d, u, behind) = ends_with_byte read.1 b')' next tail in
    let string =
      read_name-Closed m.body [] read.0 d u
        (ap (λ (t : Bytes). let q : Bytes × Bytes = (read.0, t) in q) behind) in
    let opened = after_keyword-Opened (codes "import") bs m.argument m.reaches in
    let (after, after_blank, e) = skip_ws-splits read.1 in
    let (is_name, not_empty, utf8) = checked_name-IsName read.0 name m.names in
    let same : spelled string.glyphs ≡ read.0 = sym string.spells in
    record {
      before = opened.before;
      blank = opened.blank;
      more = opened.more;
      glyphs = string.glyphs;
      after = after;
      form = (
        opened.before_blank,
        opened.is_blank,
        opened.more_blank,
        string.all_glyphs,
        after_blank,
        rw same not_empty,
        rw same utf8,
      );
      spells = same ∙ is_name;
      splits =
          ap (λ (t : Bytes). b'(' ∷ t)
            (opened.splits
              ∙ ap
                  (λ (t : Bytes).
                    opened.before ++ (codes "import" ++ (opened.blank ∷ (opened.more ++ t))))
                  (expect-splits b'"' m.argument m.body m.opens
                    ∙ ap (◌∷◌ b'"') (
                        string.reads
                        ∙ ap (quoted string.glyphs) (sym behind ∙ e ∙ ap (◌++◌ after) tail))));
    }

form_step-Suffix : (depth b : ℕ) (bs : Bytes) → Suffix (form_step depth b bs).1 (b ∷ bs)
unfolding form_step
form_step-Suffix depth b bs =
    let P : ℕ × Bytes → Type 0 = λ q. Suffix q.1 (b ∷ bs) in
    let next = Suffix_cons b (Suffix_refl bs) in
    if_rule P (b == b';') _ _ (λ _. skip_comment-Suffix (b ∷ bs))
      (λ _.
        if_rule P (b == b'"') _ _ (λ _. Suffix_cons b (skip_string_loop-Suffix bs))
          (λ _.
            if_rule P (b == b'(') _ _ (λ _. next)
              (λ _. if_rule P (b == b')') _ _ (λ _. next) (λ _. next))))

walk_form-Suffix : (fuel depth : ℕ) (bs : Bytes) → Suffix (walk_form fuel depth bs) bs
unfolding walk_form
walk_form-Suffix zero depth bs = Suffix_refl bs
walk_form-Suffix (suc fuel) zero bs = Suffix_refl bs
walk_form-Suffix (suc fuel) (suc depth) [] = Suffix_refl []
walk_form-Suffix (suc fuel) (suc depth) (b ∷ bs) =
    let next = form_step (suc depth) b bs in
    Suffix_trans (walk_form-Suffix fuel next.0 next.1) (form_step-Suffix (suc depth) b bs)

Suffix_append : (front : Bytes) {r s : Bytes} → Suffix r s → Suffix r (front ++ s)
Suffix_append front t = Suffix_trans t (record { front = front; splits = refl })

Suffix_quoted : (gs : List Glyph) (rest : Bytes) → Suffix rest (quoted gs rest)
Suffix_quoted [] rest = Suffix_cons b'"' (Suffix_refl rest)
Suffix_quoted (plain c ∷ gs) rest = Suffix_cons c (Suffix_quoted gs rest)
Suffix_quoted (escaped c ∷ gs) rest = Suffix_cons b'\\' (Suffix_cons c (Suffix_quoted gs rest))

LiteralForm-Suffix : (name bs next : Bytes) → LiteralForm name bs next → Suffix next bs
LiteralForm-Suffix name bs next f =
    let closing : Suffix next (f.after ++ (b')' ∷ next)) =
      Suffix_append f.after (Suffix_cons b')' (Suffix_refl next)) in
    let string = Suffix_cons b'"' (Suffix_trans closing (Suffix_quoted f.glyphs _)) in
    let argument = Suffix_cons f.blank (Suffix_append f.more string) in
    subst (Suffix next) (sym f.splits)
      (Suffix_cons b'(' (Suffix_append f.before (Suffix_append (codes "import") argument)))

-- What a match at a `(` means.
abbrev Matched : Bytes → FormMatch → Type 0
Matched bs (literal name next) = LiteralForm name bs next
Matched bs (non_literal next) = Suffix next bs

match_argument-Matched :
    (bs argument : Bytes) (m : FormMatch)
    → Suffix argument (b'(' ∷ bs)
    → match_argument (b'(' ∷ bs) (codes "import") argument ≡ some m
    → Matched (b'(' ∷ bs) m
unfolding match_argument
match_argument-Matched bs [] m t h = cc
match_argument-Matched bs (c ∷ cs) m t h = elim (Bool-cases (c == b'"')) [
  | inl quote ↦
      let (pair, matched, e) =
        >>=-eq-some (try_match_keyword_form (b'(' ∷ bs) (codes "import"))
          (λ q. some (literal q.0 q.1)) (rw (quote, match_argument) at h) in
      let same : literal pair.0 pair.1 ≡ m = cc in
      subst (Matched (b'(' ∷ bs)) same (
        MatchedForm-LiteralForm bs pair.0 pair.1
          (try_match_keyword_form-MatchedForm b'(' bs (codes "import") pair.0 pair.1 matched))
  | inr other ↦
      let walk = walk_form (length (c ∷ cs)) 1 (c ∷ cs) in
      let same : non_literal walk ≡ m = ground arith in
      subst (Matched (b'(' ∷ bs)) same
        (Suffix_trans (walk_form-Suffix (length (c ∷ cs)) 1 (c ∷ cs)) t)
]

Opened-Suffix : (keyword bs rest : Bytes) → Opened keyword bs rest → Suffix rest bs
Opened-Suffix keyword bs rest o = subst (Suffix rest) (sym o.splits) (
    Suffix_append o.before
      (Suffix_append keyword (Suffix_cons o.blank (Suffix_append o.more (Suffix_refl rest)))))

try_match_form-Matched :
    (bs : Bytes) (m : FormMatch)
    → try_match_form (b'(' ∷ bs) (codes "import") ≡ some m
    → Matched (b'(' ∷ bs) m
unfolding try_match_form
try_match_form-Matched bs m h =
    let (argument, reaches, found) =
      >>=-eq-some (after_keyword (codes "import") bs) (match_argument (b'(' ∷ bs) (codes "import"))
        h in
    let opened = after_keyword-Opened (codes "import") bs argument reaches in
    match_argument-Matched bs argument m
      (Suffix_cons b'(' (Opened-Suffix (codes "import") bs argument opened)) found

-- The state of the scan: it stands in the source, and what it has collected stands there too.
record IsSound (source : Bytes) (q : ImportScanResult × Bytes) : Type 0 where
  position : Suffix q.1 source
  collected : (a : Bytes) → In a q.0.refs → Occurs a source

IsSound-move :
    (source : Bytes) (r : ImportScanResult) (bs rest : Bytes)
    → IsSound source (r, bs)
    → Suffix rest bs
    → IsSound source (r, rest)
IsSound-move source r bs rest h t = record {
  position = Suffix_trans t h.position;
  collected = h.collected;
}

at_form-IsSound :
    (source bs : Bytes) (r : ImportScanResult) (o : Option FormMatch)
    → IsSound source (r, b'(' ∷ bs)
    → ((m : FormMatch) → o ≡ some m → Matched (b'(' ∷ bs) m)
    → IsSound source (at_form o bs r)
unfolding at_form
at_form-IsSound source bs r none h k =
    IsSound-move source r (b'(' ∷ bs) bs h (Suffix_cons b'(' (Suffix_refl bs))
at_form-IsSound source bs r (some (non_literal next)) h k = record {
  position = Suffix_trans (k (non_literal next) refl) h.position;
  collected = h.collected;
}
at_form-IsSound source bs r (some (literal name next)) h k =
    let form = k (literal name next) refl in
    record {
      position = Suffix_trans (LiteralForm-Suffix name (b'(' ∷ bs) next form) h.position;
      collected = λ a i. elim ((In-set_insert a name r.refs).0 i) [
        | inl same ↦
            subst (λ n. Occurs n source) (sym same)
              (record {
                front = h.position.front;
                rest = b'(' ∷ bs;
                behind = next;
                splits = h.position.splits;
                here = form;
              })
        | inr old ↦ h.collected a old
      ];
    }

scan_step-IsSound :
    (source : Bytes) (b : ℕ) (bs : Bytes) (r : ImportScanResult)
    → IsSound source (r, b ∷ bs)
    → IsSound source (scan_step (codes "import") b bs r)
unfolding scan_step
scan_step-IsSound source b bs r h =
    let P = IsSound source in
    let move = λ (rest : Bytes). IsSound-move source r (b ∷ bs) rest h in
    if_rule P (b == b';') _ _ (λ _. move _ (skip_comment-Suffix (b ∷ bs)))
      (λ _.
        if_rule P (b == b'"') _ _ (λ _. move _ (Suffix_cons b (skip_string_loop-Suffix bs)))
          (λ _.
            if_rule P (b == b'(') _ _
              (λ t.
                let e : b ≡ b'(' = ground arith in
                rw e (
                  at_form-IsSound source bs r (try_match_form (b'(' ∷ bs) (codes "import"))
                    (rw e at h) (try_match_form-Matched bs)))
              (λ _. move bs (Suffix_cons b (Suffix_refl bs)))))

scan_loop-IsSound :
    (fuel : ℕ) (source bs : Bytes) (r : ImportScanResult)
    → IsSound source (r, bs)
    → IsSound source (scan_loop fuel (codes "import") bs r)
unfolding scan_loop
scan_loop-IsSound zero source bs r h = h
scan_loop-IsSound (suc fuel) source [] r h = h
scan_loop-IsSound (suc fuel) source (b ∷ bs) r h =
    let next = scan_step (codes "import") b bs r in
    scan_loop-IsSound fuel source next.1 next.0 (scan_step-IsSound source b bs r h)

-- Whatever the source, each name that the scan collects stands in it as a literal import form: an
-- opening parenthesis, blanks, the keyword, a blank, a quoted string that spells the name, which is
-- not empty and valid UTF-8, blanks and a closing parenthesis.
pub import_scan-Occurs :
    (source name : Bytes) → In name (import_scan source).refs → Occurs name source
unfolding import_scan keyword_scan
import_scan-Occurs source name i =
    let start : ImportScanResult = record { refs = []; scan_complete = true } in
    let sound : IsSound source (start, source) = record {
      position = Suffix_refl source;
      collected = λ a (j : ⊥). absurd j;
    } in
    (scan_loop-IsSound (length source) source source start sound).collected name i
