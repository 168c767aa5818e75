-- ===== src/SbplImports/Hash.antt =====
-- The text that is hashed for a closure.
use policy_witness.Base.{
  ℕ, List, [], ◌∷◌, ◌++◌, ◌≡◌, ◌≢◌, refl, sym, ap, ap₂, subst, arith, Bytes, codes, All, All-append,
  All-of_append, All-sort_by, Option, none, some, join, sort, sort-Permᴰ, bytes_cmp, bytes_order,
  append_assoc,
}
use mathlib.Core.List.{Permᴰ}
use mathlib.Core.List.Permᴰ
use policy_witness.SbplImports.{System, ImportRecord, closure_hash_separator}
use policy_witness.SbplImports.Walk.{
  path_text, hash_line, hash_lines, closure_payload, compute_closure_hash,
}

swap-Permᴰ : (xs ys rest : List Bytes) → Permᴰ (xs ++ (ys ++ rest)) (ys ++ (xs ++ rest))
swap-Permᴰ xs ys rest =
    subst (λ l. Permᴰ l (ys ++ (xs ++ rest))) (append_assoc xs ys rest)
      (subst (Permᴰ ((xs ++ ys) ++ rest)) (append_assoc ys xs rest)
        (Permᴰ.append_right rest (Permᴰ.append_comm xs ys)))

hash_lines-Permᴰ : {xs ys : List ImportRecord} → Permᴰ xs ys → Permᴰ (hash_lines xs) (hash_lines ys)
unfolding hash_lines
hash_lines-Permᴰ Permᴰ.nil = Permᴰ.refl []
hash_lines-Permᴰ (Permᴰ.cons {b = b} e p) =
    rw e (Permᴰ.append_left (hash_line b) (hash_lines-Permᴰ p))
hash_lines-Permᴰ (Permᴰ.swap {a' = a'} {b' = b'} {l = l} e f) =
    rw (e, f) (swap-Permᴰ (hash_line b') (hash_line a') (hash_lines l))
hash_lines-Permᴰ (Permᴰ.trans p q) = Permᴰ.trans (hash_lines-Permᴰ p) (hash_lines-Permᴰ q)

-- The closure hash does not depend on the order of the records.
pub compute_closure_hash-Permᴰ :
    (sys : System) (source : Bytes) {imports imports' : List ImportRecord}
    → Permᴰ imports imports'
    → compute_closure_hash sys source imports ≡ compute_closure_hash sys source imports'
unfolding compute_closure_hash
compute_closure_hash-Permᴰ sys source p =
    ap
      (λ (lines : List Bytes).
        sys.sha256_hex (source ++ (closure_hash_separator ∷ join (codes "\n") lines)))
      (sort-Permᴰ (hash_lines-Permᴰ p))

-- A byte that is neither the separator nor the newline.
abbrev pub IsPlain : ℕ → Type 0
IsPlain c = (c ≢ closure_hash_separator) × (c ≢ b'\n')

-- The record's path and digest hold neither the separator nor a newline.
abbrev pub IsHashable : ImportRecord → Type 0
IsHashable r = All IsPlain (path_text r.resolved_path) × All IsPlain (path_text r.sha256)

append-ne-nil : (xs : Bytes) (c : ℕ) (ys : Bytes) → xs ++ (c ∷ ys) ≢ []
append-ne-nil [] c ys e = cc
append-ne-nil (x ∷ xs) c ys e = cc

-- A line: plain, and not empty.
abbrev IsLine : Bytes → Type 0
IsLine l = All IsPlain l × (l ≢ [])

hash_line-IsLine : (r : ImportRecord) → IsHashable r → All IsLine (hash_line r)
unfolding hash_line
hash_line-IsLine r h = go r.resolved_path r.sha256 h
  where
    go :
        (path sha : Option Bytes)
        → All IsPlain (path_text path) × All IsPlain (path_text sha)
        → All IsLine (elim path [
          | none ↦ []
          | some p ↦ elim sha [ none ↦ [] | some d ↦ (p ++ (b' ' ∷ d)) ∷ [] ]
        ])
    go none sha h = tt
    go (some p) none h = tt
    go (some p) (some d) h =
        ((All-append IsPlain p (b' ' ∷ d) h.0 (omega arith, h.1), append-ne-nil p b' ' d), tt)

hash_lines-IsLine : (rs : List ImportRecord) → All IsHashable rs → All IsLine (hash_lines rs)
unfolding hash_lines
hash_lines-IsLine [] h = tt
hash_lines-IsLine (r ∷ rs) h =
    All-append IsLine (hash_line r) (hash_lines rs) (hash_line-IsLine r h.0)
      (hash_lines-IsLine rs h.1)

-- No separator inside.
abbrev IsUnseparated : Bytes → Type 0
IsUnseparated = All (λ c. c ≢ closure_hash_separator)

plain-IsUnseparated : (l : Bytes) → All IsPlain l → IsUnseparated l
plain-IsUnseparated [] h = tt
plain-IsUnseparated (c ∷ l) h = (h.0.0, plain-IsUnseparated l h.1)

join-IsUnseparated :
    (lines : List Bytes) → All IsLine lines → IsUnseparated (join (codes "\n") lines)
unfolding join
join-IsUnseparated [] h = tt
join-IsUnseparated (l ∷ []) h = plain-IsUnseparated l h.0.0
join-IsUnseparated (l ∷ m ∷ rest) h =
    All-append _ l _ (plain-IsUnseparated l h.0.0) (omega arith, join-IsUnseparated (m ∷ rest) h.1)

inside-absurd : (b : ℕ) (j s k : Bytes) → All (λ c. c ≢ b) j → j ≡ s ++ (b ∷ k) → ⊥
inside-absurd b j s k h e =
    (All-of_append (λ c. c ≢ b) s (b ∷ k) (subst (All (λ c. c ≢ b)) e h)).1.0 refl

tail_eq : {x y : ℕ} {xs ys : Bytes} → x ∷ xs ≡ y ∷ ys → xs ≡ ys
tail_eq e = cc

-- The last separator divides the text in one way.
divides :
    (s s' j j' : Bytes)
    → IsUnseparated j
    → IsUnseparated j'
    → s ++ (closure_hash_separator ∷ j) ≡ s' ++ (closure_hash_separator ∷ j')
    → (s ≡ s') × (j ≡ j')
divides [] [] j j' h h' e = (refl, tail_eq e)
divides [] (c ∷ s') j j' h h' e =
    absurd (inside-absurd closure_hash_separator j s' j' h (tail_eq e))
divides (c ∷ s) [] j j' h h' e =
    absurd (inside-absurd closure_hash_separator j' s j h' (tail_eq (sym e)))
divides (c ∷ s) (d ∷ s') j j' h h' e = ground (arith, divides s s' j j' h h')

-- The first newline divides the text in one way.
first_divides :
    (l m x y : Bytes)
    → All IsPlain l
    → All IsPlain m
    → l ++ (b'\n' ∷ x) ≡ m ++ (b'\n' ∷ y)
    → (l ≡ m) × (x ≡ y)
first_divides [] [] x y h k e = (refl, tail_eq e)
first_divides [] (c ∷ m) x y h k e = absurd (k.0.1 cc)
first_divides (c ∷ l) [] x y h k e = absurd (h.0.1 cc)
first_divides (c ∷ l) (d ∷ m) x y h k e = ground (arith, first_divides l m x y)

line_holds_newline : (l m x : Bytes) → All IsPlain l → l ≡ m ++ (b'\n' ∷ x) → ⊥
line_holds_newline l m x h e =
    (All-of_append IsPlain m (b'\n' ∷ x) (subst (All IsPlain) e h)).1.0.1 refl

join_injective :
    (ls ms : List Bytes)
    → All IsLine ls
    → All IsLine ms
    → join (codes "\n") ls ≡ join (codes "\n") ms
    → ls ≡ ms
unfolding join
join_injective [] [] h k e = refl
join_injective [] (m ∷ []) h k e = absurd (k.0.1 (sym e))
join_injective [] (m ∷ n ∷ ms) h k e = absurd (append-ne-nil m b'\n' _ (sym e))
join_injective (l ∷ []) [] h k e = absurd (h.0.1 e)
join_injective (l ∷ n ∷ ls) [] h k e = absurd (append-ne-nil l b'\n' _ e)
join_injective (l ∷ []) (m ∷ []) h k e = ap (λ x. x ∷ []) e
join_injective (l ∷ []) (m ∷ n ∷ ms) h k e = absurd (line_holds_newline l m _ h.0.0 e)
join_injective (l ∷ n ∷ ls) (m ∷ []) h k e = absurd (line_holds_newline m l _ k.0.0 (sym e))
join_injective (l ∷ n ∷ ls) (m ∷ o ∷ ms) h k e =
    let parts = first_divides l m _ _ h.0.0 k.0.0 e in
    ap₂ ◌∷◌ parts.0 (join_injective (n ∷ ls) (o ∷ ms) h.1 k.1 parts.1)

-- Where no path and no digest holds the separator byte or a newline, the hashed text tells the
-- source and the lines apart: two closures with one hashed text have one source and one sorted
-- list of lines `PATH SHA`. The source itself may hold any bytes.
pub closure_payload_injective :
    (source source' : Bytes) (imports imports' : List ImportRecord)
    → All IsHashable imports
    → All IsHashable imports'
    → closure_payload source imports ≡ closure_payload source' imports'
    → (source ≡ source') × (sort (hash_lines imports) ≡ sort (hash_lines imports'))
unfolding closure_payload
closure_payload_injective source source' imports imports' h h' e =
    let lines = All-sort_by bytes_cmp IsLine (hash_lines imports) (hash_lines-IsLine imports h) in
    let lines' =
      All-sort_by bytes_cmp IsLine (hash_lines imports') (hash_lines-IsLine imports' h') in
    let parts =
      divides source source' _ _ (join-IsUnseparated (sort (hash_lines imports)) lines)
        (join-IsUnseparated (sort (hash_lines imports')) lines') e in
    (parts.0, join_injective _ _ lines lines' parts.1)
