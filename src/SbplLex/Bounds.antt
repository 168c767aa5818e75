-- ===== src/SbplLex/Bounds.antt =====
-- The scanner's positions only move forward, so its loops end by their own tests.
use policy_witness.Base.{
  ℕ, zero, suc, ◌+◌, ◌≤◌, Option, none, some, [], ◌∷◌, ◌++◌, ◌≡◌, refl, ap, subst, true, ◌==◌, inl,
  inr, arith, Bytes, length, Bool-cases, Option-cases,
}
use policy_witness.SbplLex.{
  ImportScanResult, FormMatch, literal, non_literal, skip_ws, skip_comment, skip_string_loop,
  strip_keyword, require_ws, after_keyword, read_name, expect, checked_name, try_match_keyword_form,
  form_step, walk_form, match_argument, try_match_form, at_form, scan_step, scan_loop, keyword_scan,
  ◌>>=◌,
}
use native.Mathlib.Nat.{suc-add, zero-add}

length-skip_ws : (bs : Bytes) → length (skip_ws bs) ≤ length bs
unfolding skip_ws
length-skip_ws [] = omega arith
length-skip_ws (b ∷ bs) = ground (arith, length-skip_ws bs)

length-skip_comment : (bs : Bytes) → length (skip_comment bs) ≤ length bs
unfolding skip_comment
length-skip_comment [] = omega arith
length-skip_comment (b ∷ bs) = ground (arith, length-skip_comment bs)

length-skip_string_loop : (bs : Bytes) → length (skip_string_loop bs) ≤ length bs
unfolding skip_string_loop
length-skip_string_loop [] = omega arith
length-skip_string_loop (b ∷ []) = omega arith
length-skip_string_loop (b ∷ c ∷ bs) =
    ground (arith, length-skip_string_loop bs, length-skip_string_loop (c ∷ bs))

length-strip_keyword :
    (ks bs : Bytes) (rest : Bytes) → strip_keyword ks bs ≡ some rest → length rest ≤ length bs
unfolding strip_keyword
length-strip_keyword [] bs rest h = ground arith
length-strip_keyword (k ∷ ks) [] rest h = ground arith
length-strip_keyword (k ∷ ks) (b ∷ bs) rest h = ground (arith, length-strip_keyword ks bs rest)

length-after_keyword :
    (keyword bs rest : Bytes) → after_keyword keyword bs ≡ some rest → length rest ≤ length bs
unfolding after_keyword
length-after_keyword keyword bs rest h = elim (Option-cases (strip_keyword keyword (skip_ws bs))) [
  | inl e ↦ ground arith
  | inr (r, e) ↦ go r (length-strip_keyword keyword (skip_ws bs) r e) (rw e at h)
]
  where
    go :
        (r : Bytes)
        → length r ≤ length (skip_ws bs)
        → require_ws r ≡ some rest
        → length rest ≤ length bs
    go [] l q = ground arith
    go (c ∷ cs) l q = ground (arith, length-skip_ws cs, length-skip_ws bs)

length-read_name : (name bs : Bytes) → length (read_name name bs).1 ≤ length bs
unfolding read_name
length-read_name name [] = omega arith
length-read_name name (b ∷ []) = ground arith
length-read_name name (b ∷ c ∷ bs) =
    ground (arith, length-read_name (name ++ c ∷ []) bs, length-read_name (name ++ b ∷ []) (c ∷ bs))

length-expect : (b : ℕ) (bs rest : Bytes) → expect b bs ≡ some rest → length rest ≤ length bs
unfolding expect
length-expect b [] rest h = ground arith
length-expect b (c ∷ cs) rest h = ground arith

pub >>=-eq-some :
    {A B : Type 0} (m : Option A) (f : A → Option B) {b : B}
    → (m >>= f) ≡ some b
    → (a : A) × (m ≡ some a) × (f a ≡ some b)
>>=-eq-some none f h = cc
>>=-eq-some (some a) f h = (a, refl, h)

-- The steps of a keyword form that matched.
pub record MatchedForm (keyword bs name next : Bytes) : Type 0 where
  pub argument : Bytes
  pub body : Bytes
  pub reaches : after_keyword keyword bs ≡ some argument
  pub opens : expect b'"' argument ≡ some body
  pub closes : expect b')' (skip_ws (read_name [] body).1) ≡ some next
  pub names : checked_name (read_name [] body).0 ≡ some name

pub try_match_keyword_form-MatchedForm :
    (p : ℕ) (bs keyword name next : Bytes)
    → try_match_keyword_form (p ∷ bs) keyword ≡ some (name, next)
    → MatchedForm keyword bs name next
unfolding try_match_keyword_form
try_match_keyword_form-MatchedForm p bs keyword name next h =
    let (argument, reaches, h₁) = >>=-eq-some (after_keyword keyword bs) _ h in
    let (body, opens, h₂) = >>=-eq-some (expect b'"' argument) _ h₁ in
    let (next', closes, h₃) = >>=-eq-some (expect b')' (skip_ws (read_name [] body).1)) _ h₂ in
    let (name', names, h₄) = >>=-eq-some (checked_name (read_name [] body).0) _ h₃ in
    record {
      argument = argument;
      body = body;
      reaches = reaches;
      opens = opens;
      closes = cc;
      names = cc;
    }

length-MatchedForm :
    (keyword bs name next : Bytes) → MatchedForm keyword bs name next → length next ≤ length bs
length-MatchedForm keyword bs name next m =
    let rest = (read_name [] m.body).1 in
    omega (
      arith,
      length-after_keyword keyword bs m.argument m.reaches,
      length-expect b'"' m.argument m.body m.opens,
      length-read_name [] m.body,
      length-skip_ws rest,
      length-expect b')' (skip_ws rest) next m.closes,
    )

pub length-form_step : (depth b : ℕ) (bs : Bytes) → length (form_step depth b bs).1 ≤ length bs
unfolding form_step
length-form_step depth b bs = ground (arith, length-skip_comment bs, length-skip_string_loop bs)

length-walk_form : (fuel depth : ℕ) (bs : Bytes) → length (walk_form fuel depth bs) ≤ length bs
unfolding walk_form
length-walk_form zero depth bs = omega arith
length-walk_form (suc fuel) zero bs = omega arith
length-walk_form (suc fuel) (suc depth) [] = omega arith
length-walk_form (suc fuel) (suc depth) (b ∷ bs) =
    let next = form_step (suc depth) b bs in
    omega (arith, length-walk_form fuel next.0 next.1, length-form_step (suc depth) b bs)

-- With at least as much fuel as bytes the walk does not run out: more fuel changes nothing.
pub walk_form_fuel :
    (fuel more depth : ℕ) (bs : Bytes)
    → length bs ≤ fuel
    → walk_form (fuel + more) depth bs ≡ walk_form fuel depth bs
unfolding walk_form
walk_form_fuel zero zero depth bs h = refl
walk_form_fuel zero (suc more) zero bs h = rw zero-add
walk_form_fuel zero (suc more) (suc depth) [] h = rw zero-add
walk_form_fuel zero (suc more) (suc depth) (b ∷ bs) h = absurd (omega arith)
walk_form_fuel (suc fuel) more zero bs h = rw suc-add
walk_form_fuel (suc fuel) more (suc depth) [] h = rw suc-add
walk_form_fuel (suc fuel) more (suc depth) (b ∷ bs) h =
    let next = form_step (suc depth) b bs in
    rw suc-add
      (walk_form_fuel fuel more next.0 next.1 (omega (arith, length-form_step (suc depth) b bs)))

abbrev pub match_next : FormMatch → Bytes
match_next (literal name next) = next
match_next (non_literal next) = next

length-try_match_form :
    (p : ℕ) (bs keyword : Bytes) (m : FormMatch)
    → try_match_form (p ∷ bs) keyword ≡ some m
    → length (match_next m) ≤ length bs
unfolding try_match_form
length-try_match_form p bs keyword m h =
    let (argument, reaches, found) =
      >>=-eq-some (after_keyword keyword bs) (match_argument (p ∷ bs) keyword) h in
    go argument (length-after_keyword keyword bs argument reaches) found
  where
    go :
        (argument : Bytes)
        → length argument ≤ length bs
        → match_argument (p ∷ bs) keyword argument ≡ some m
        → length (match_next m) ≤ length bs
    go [] l f = cc
    go (b ∷ rest) l f = elim (Bool-cases (b == b'"')) [
      | inl quoted ↦
          let (pair, matched, e) =
            >>=-eq-some (try_match_keyword_form (p ∷ bs) keyword) (λ q. some (literal q.0 q.1))
              (rw (quoted, match_argument) at f) in
          let size =
            length-MatchedForm keyword bs pair.0 pair.1
              (try_match_keyword_form-MatchedForm p bs keyword pair.0 pair.1 matched) in
          let same : literal pair.0 pair.1 ≡ m = cc in
          subst (λ y. length (match_next y) ≤ length bs) same size
      | inr computed ↦ ground (arith, length-walk_form (length (b ∷ rest)) 1 (b ∷ rest))
    ]

length-at_form :
    (o : Option FormMatch) (bs : Bytes) (r : ImportScanResult)
    → ((m : FormMatch) → o ≡ some m → length (match_next m) ≤ length bs)
    → length (at_form o bs r).1 ≤ length bs
unfolding at_form
length-at_form none bs r h = omega arith
length-at_form (some (literal name next)) bs r h = h (literal name next) refl
length-at_form (some (non_literal next)) bs r h = h (non_literal next) refl

pub length-scan_step :
    (keyword : Bytes) (b : ℕ) (bs : Bytes) (r : ImportScanResult)
    → length (scan_step keyword b bs r).1 ≤ length bs
unfolding scan_step
length-scan_step keyword b bs r = ground (
  arith,
  length-skip_comment bs,
  length-skip_string_loop bs,
  length-at_form (try_match_form (b ∷ bs) keyword) bs r (length-try_match_form b bs keyword),
)

pub scan_loop_ends :
    (fuel : ℕ) (keyword bs : Bytes) (r : ImportScanResult)
    → length bs ≤ fuel
    → (scan_loop fuel keyword bs r).1 ≡ []
unfolding scan_loop
scan_loop_ends zero keyword [] r h = refl
scan_loop_ends zero keyword (b ∷ bs) r h = absurd (omega arith)
scan_loop_ends (suc fuel) keyword [] r h = refl
scan_loop_ends (suc fuel) keyword (b ∷ bs) r h =
    let next = scan_step keyword b bs r in
    scan_loop_ends fuel keyword next.1 next.0 (omega (arith, length-scan_step keyword b bs r))

pub scan_loop_fuel :
    (fuel more : ℕ) (keyword bs : Bytes) (r : ImportScanResult)
    → length bs ≤ fuel
    → scan_loop (fuel + more) keyword bs r ≡ scan_loop fuel keyword bs r
unfolding scan_loop
scan_loop_fuel zero zero keyword [] r h = refl
scan_loop_fuel zero (suc more) keyword [] r h = rw zero-add
scan_loop_fuel zero more keyword (b ∷ bs) r h = absurd (omega arith)
scan_loop_fuel (suc fuel) more keyword [] r h = rw suc-add
scan_loop_fuel (suc fuel) more keyword (b ∷ bs) r h =
    let next = scan_step keyword b bs r in
    rw suc-add (
      scan_loop_fuel fuel more keyword next.1 next.0
        (omega (arith, length-scan_step keyword b bs r)))

-- The scan ends by its own test: with one round for each byte of the source it has read the whole
-- source, and a loop given more rounds collects the same references and the same flag.
pub keyword_scan_ends :
    (source keyword : Bytes) (more : ℕ)
    → let start : ImportScanResult = record { refs = []; scan_complete = true } in
      ((scan_loop (length source) keyword source start).1 ≡ [])
      × ((scan_loop (length source + more) keyword source start).0 ≡ keyword_scan source keyword)
unfolding keyword_scan
keyword_scan_ends source keyword more =
    let start : ImportScanResult = record { refs = []; scan_complete = true } in
    (
      scan_loop_ends (length source) keyword source start (omega arith),
      ap (λ q. q.0) (scan_loop_fuel (length source) more keyword source start (omega arith)),
    )
