-- ===== src/SbplLex/Grammar.antt =====
-- A grammar of profile text, independent of the scanner: what a source is made of, the text of it,
-- and the import names that it holds.
pub mod Strings
pub mod Forms
pub mod RoundTrip
pub mod Sound
pub mod Occurs
use policy_witness.Base.{ℕ, Bool, true, false, List, [], ◌∷◌, ◌++◌, ◌≡◌, ◌≢◌, Bytes, codes, All}
use policy_witness.Base.Utf8.{is_utf8}
use policy_witness.SbplLex.{is_ws}

-- One character of a quoted string.
pub data Glyph : Type 0 where
  plain : ℕ → Glyph
  escaped : ℕ → Glyph

abbrev pub IsGlyph : Glyph → Type 0
IsGlyph (plain c) = (c ≢ b'"') × (c ≢ b'\\')
IsGlyph (escaped c) = Unit

abbrev pub quoted : List Glyph → Bytes → Bytes
quoted [] rest = b'"' ∷ rest
quoted (plain c ∷ gs) rest = c ∷ quoted gs rest
quoted (escaped c ∷ gs) rest = b'\\' ∷ c ∷ quoted gs rest

abbrev pub spelled : List Glyph → Bytes
spelled [] = []
spelled (plain c ∷ gs) = c ∷ spelled gs
spelled (escaped c ∷ gs) = c ∷ spelled gs

abbrev pub IsBlank : ℕ → Type 0
IsBlank c = is_ws c ≡ true

abbrev pub IsComment : ℕ → Type 0
IsComment c = c ≢ b'\n'

-- The bytes with no meaning of their own inside a form.
abbrev pub IsInert : ℕ → Type 0
IsInert c = (c ≢ b';') × (c ≢ b'"') × (c ≢ b'(') × (c ≢ b')')

-- What stands behind the keyword of a form, up to the `)` of that form.
pub data Code : Type 0 where
  end : Code
  byte : ℕ → Code → Code
  comment : Bytes → Code → Code
  text : List Glyph → Code → Code
  group : Code → Code → Code

abbrev pub IsCode : Code → Type 0
IsCode end = Unit
IsCode (byte c k) = IsInert c × IsCode k
IsCode (comment body k) = All IsComment body × IsCode k
IsCode (text gs k) = All IsGlyph gs × IsCode k
IsCode (group inner k) = IsCode inner × IsCode k

-- Each text is written in front of what follows it.
abbrev pub code_text : Code → Bytes → Bytes
code_text end rest = rest
code_text (byte c k) rest = c ∷ code_text k rest
code_text (comment body k) rest = b';' ∷ (body ++ (b'\n' ∷ code_text k rest))
code_text (text gs k) rest = b'"' ∷ quoted gs (code_text k rest)
code_text (group inner k) rest = b'(' ∷ code_text inner (b')' ∷ code_text k rest)

-- An argument that is no string literal: it does not begin with a blank or a quote.
abbrev pub IsComputed : Code → Type 0
IsComputed (byte c k) = is_ws c ≡ false
IsComputed (text gs k) = ⊥
IsComputed _ = Unit

pub data Item : Type 0 where
  byte : ℕ → Item
  comment : Bytes → Item
  text : List Glyph → Item
  paren : Item
  import_literal : Bytes → ℕ → Bytes → List Glyph → Bytes → Item
  import_computed : Bytes → ℕ → Bytes → Code → Item

abbrev pub item_text : Item → Bytes → Bytes
item_text (byte c) rest = c ∷ rest
item_text (comment body) rest = b';' ∷ (body ++ (b'\n' ∷ rest))
item_text (text gs) rest = b'"' ∷ quoted gs rest
item_text paren rest = b'(' ∷ rest
item_text (import_literal before blank more gs after) rest =
    b'('
    ∷ (before
        ++ (codes "import" ++ (blank ∷ (more ++ (b'"' ∷ quoted gs (after ++ (b')' ∷ rest)))))))
item_text (import_computed before blank more k) rest =
    b'(' ∷ (before ++ (codes "import" ++ (blank ∷ (more ++ code_text k (b')' ∷ rest)))))

abbrev pub source_text : List Item → Bytes
source_text [] = []
source_text (i ∷ is) = item_text i (source_text is)

-- `bs` is blanks, the keyword and a blank, with anything behind.
pub record Reaches (keyword bs : Bytes) : Type 0 where
  pub before : Bytes
  pub blank : ℕ
  pub behind : Bytes
  pub before_blank : All IsBlank before
  pub is_blank : IsBlank blank
  pub splits : bs ≡ before ++ (keyword ++ (blank ∷ behind))

abbrev pub IsItem : Item → Bytes → Type 0
IsItem (byte c) rest = (c ≢ b';') × (c ≢ b'"') × (c ≢ b'(')
IsItem (comment body) rest = All IsComment body
IsItem (text gs) rest = All IsGlyph gs
IsItem paren rest = ¬ Reaches (codes "import") rest
IsItem (import_literal before blank more gs after) rest =
    All IsBlank before
    × IsBlank blank
    × All IsBlank more
    × All IsGlyph gs
    × All IsBlank after
    × (spelled gs ≢ [])
    × (is_utf8 (spelled gs) ≡ true)
IsItem (import_computed before blank more k) rest =
    All IsBlank before × IsBlank blank × All IsBlank more × IsCode k × IsComputed k

abbrev pub IsSource : List Item → Type 0
IsSource [] = Unit
IsSource (i ∷ is) = IsItem i (source_text is) × IsSource is

abbrev pub imported : List Item → List Bytes
imported [] = []
imported (import_literal _ _ _ gs _ ∷ is) = spelled gs ∷ imported is
imported (_ ∷ is) = imported is

abbrev pub all_literal : List Item → Bool
all_literal [] = true
all_literal (import_computed _ _ _ _ ∷ is) = false
all_literal (_ ∷ is) = all_literal is
