-- ===== src/SbplLex.antt =====
-- controller/src/sbpl_lex.rs: the scanner for `(import "NAME")` references.
-- A position `i` in the slice `bytes` is the rest of the slice, `bytes[i..]`; the end of the input
-- is `[]`. A loop that steps over more than one byte takes fuel, and its caller gives the length
-- of what is left.
pub mod Bounds
pub mod Grammar
mod Tests
use policy_witness.Base.{
  ℕ, zero, suc, ◌+◌, ◌-◌, Bool, true, false, not, ◌&&◌, ◌||◌, Option, none, some, List, [], ◌∷◌,
  ◌++◌, ◌==◌, if◌then◌else◌, Bytes, codes, length, set_insert, bytes_order,
}
use policy_witness.Base.Utf8.{is_utf8}

-- `refs` is a BTreeSet: increasing.
pub record ImportScanResult : Type 0 where
  pub refs : List Bytes
  pub scan_complete : Bool

pub data FormMatch : Type 0 where
  literal : Bytes → Bytes → FormMatch
  non_literal : Bytes → FormMatch

-- `?` and `let … else` on an Option.
infixl 5 ◌>>=◌
abbrev pub ◌>>=◌ : {A B : Type 0} → Option A → (A → Option B) → Option B
none >>= f = none
some a >>= f = f a

unfoldable pub is_ws : ℕ → Bool
is_ws b = b == b' ' || b == b'\t' || b == b'\n' || b == b'\r'

unfoldable pub skip_ws : Bytes → Bytes
unfolding is_ws
skip_ws [] = []
skip_ws (b ∷ bs) = if is_ws b then skip_ws bs else b ∷ bs

-- The loop at `;`: it stops at the newline.
unfoldable pub skip_comment : Bytes → Bytes
skip_comment [] = []
skip_comment (b ∷ bs) = if b == b'\n' then b ∷ bs else skip_comment bs

-- The loop of `skip_string`. The last byte has a clause of its own, where `i + 2` is cut to the
-- length, so every case ends at the end of the input.
unfoldable pub skip_string_loop : Bytes → Bytes
skip_string_loop [] = []
skip_string_loop (b ∷ []) = []
skip_string_loop (b ∷ c ∷ bs) =
    let escaped = skip_string_loop bs in
    let more = skip_string_loop (c ∷ bs) in
    if b == b'\\' then escaped else if b == b'"' then c ∷ bs else more

unfoldable pub skip_string : Bytes → Bytes
unfolding skip_string_loop
skip_string [] = []
skip_string (_ ∷ bs) = skip_string_loop bs

-- `bytes[i..i + keyword.len()] == keyword`, and what stands behind it.
unfoldable pub strip_keyword : Bytes → Bytes → Option Bytes
strip_keyword [] bs = some bs
strip_keyword (k ∷ ks) [] = none
strip_keyword (k ∷ ks) (b ∷ bs) = if b == k then strip_keyword ks bs else none

-- At least one blank, then all the blanks.
unfoldable pub require_ws : Bytes → Option Bytes
unfolding skip_ws
require_ws [] = none
require_ws (b ∷ bs) = if is_ws b then some (skip_ws bs) else none

-- The start of both matchers, from the byte behind the `(`: blanks, the keyword, blanks.
unfoldable pub after_keyword : Bytes → Bytes → Option Bytes
unfolding strip_keyword require_ws skip_ws
after_keyword keyword bs = do rest ← strip_keyword keyword (skip_ws bs); require_ws rest

-- The loop that collects the name, and the position behind the closing quote (or the end).
unfoldable pub read_name : Bytes → Bytes → Bytes × Bytes
read_name name [] = (name, [])
read_name name (b ∷ []) = if b == b'"' then (name, []) else (name ++ b ∷ [], [])
read_name name (b ∷ c ∷ bs) =
    let escaped = read_name (name ++ c ∷ []) bs in
    let more = read_name (name ++ b ∷ []) (c ∷ bs) in
    if b == b'\\' then escaped else if b == b'"' then (name, c ∷ bs) else more

-- The byte that must stand here, and what is behind it.
unfoldable pub expect : ℕ → Bytes → Option Bytes
expect b [] = none
expect b (c ∷ cs) = if c == b then some cs else none

-- `String::from_utf8(name).ok()?`, and no empty name.
unfoldable pub checked_name : Bytes → Option Bytes
checked_name [] = none
checked_name (b ∷ bs) = if is_utf8 (b ∷ bs) then some (b ∷ bs) else none

-- From the opening `(`.
unfoldable pub try_match_keyword_form : Bytes → Bytes → Option (Bytes × Bytes)
unfolding after_keyword expect skip_ws read_name checked_name
try_match_keyword_form [] keyword = none
try_match_keyword_form (_ ∷ bs) keyword = do
  argument ← after_keyword keyword bs
  body ← expect b'"' argument
  let named = read_name [] body
  next ← expect b')' (skip_ws named.1)
  name ← checked_name named.0
  some (name, next)

-- One round of the walk to the matching `)`: the new depth and position.
unfoldable pub form_step : ℕ → ℕ → Bytes → ℕ × Bytes
unfolding skip_comment skip_string
form_step depth b bs =
    if b == b';'
    then (depth, skip_comment (b ∷ bs))
    else if b == b'"'
    then (depth, skip_string (b ∷ bs))
    else if b == b'('
    then (depth + 1, bs)
    else if b == b')'
    then (depth - 1, bs)
    else (depth, bs)

unfoldable pub walk_form : ℕ → ℕ → Bytes → Bytes
unfolding form_step
walk_form zero depth bs = bs
walk_form (suc fuel) zero bs = bs
walk_form (suc fuel) (suc depth) [] = []
walk_form (suc fuel) (suc depth) (b ∷ bs) =
    let next = form_step (suc depth) b bs in walk_form fuel next.0 next.1

-- On the argument: a literal, or a walk to the end of the form.
unfoldable pub match_argument : Bytes → Bytes → Bytes → Option FormMatch
unfolding try_match_keyword_form walk_form
match_argument form keyword [] = none
match_argument form keyword (b ∷ bs) =
    if b == b'"'
    then try_match_keyword_form form keyword >>= (λ m. some (literal m.0 m.1))
    else some (non_literal (walk_form (length (b ∷ bs)) 1 (b ∷ bs)))

unfoldable pub try_match_form : Bytes → Bytes → Option FormMatch
unfolding match_argument after_keyword
try_match_form [] keyword = none
try_match_form (p ∷ bs) keyword = after_keyword keyword bs >>= match_argument (p ∷ bs) keyword

-- What the scan does at a `(`.
unfoldable pub at_form : Option FormMatch → Bytes → ImportScanResult → ImportScanResult × Bytes
unfolding set_insert
at_form (some (literal name next)) bs r = (record r { refs = set_insert name r.refs }, next)
at_form (some (non_literal next)) bs r = (record r { scan_complete = false }, next)
at_form none bs r = (r, bs)

-- One round of the scan at the byte `b` with `bs` behind it.
unfoldable pub scan_step : Bytes → ℕ → Bytes → ImportScanResult → ImportScanResult × Bytes
unfolding skip_comment skip_string at_form try_match_form
scan_step keyword b bs r =
    if b == b';'
    then (r, skip_comment (b ∷ bs))
    else if b == b'"'
    then (r, skip_string (b ∷ bs))
    else if b == b'('
    then at_form (try_match_form (b ∷ bs) keyword) bs r
    else (r, bs)

-- The loop, with the position where it stopped.
unfoldable pub scan_loop : ℕ → Bytes → Bytes → ImportScanResult → ImportScanResult × Bytes
unfolding scan_step
scan_loop zero keyword bs r = (r, bs)
scan_loop (suc fuel) keyword [] r = (r, [])
scan_loop (suc fuel) keyword (b ∷ bs) r =
    let next = scan_step keyword b bs r in scan_loop fuel keyword next.1 next.0

unfoldable pub keyword_scan : Bytes → Bytes → ImportScanResult
unfolding scan_loop
keyword_scan source keyword =
    (scan_loop (length source) keyword source (record { refs = []; scan_complete = true })).0

unfoldable pub import_scan : Bytes → ImportScanResult
unfolding keyword_scan
import_scan source = keyword_scan source (codes "import")
