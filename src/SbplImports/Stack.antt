-- ===== src/SbplImports/Stack.antt =====
-- The stack of files that are being expanded, and the cycle that the walk reports.
use policy_witness.Base.{
  ok, true, List, [], ◌∷◌, ◌++◌, ◌≡◌, refl, sym, ◌∙◌, ap, arith, Bytes, Option, none, some, In,
  bytes_eq_iff, bytes_order,
}
use policy_witness.Base.Utf8.{is_utf8}
use policy_witness.SbplLex.{import_scan}
use policy_witness.SbplImports.{
  System, Metadata, ResolverState, contains, pop, resolve_import_path, read_regular_file,
}
use policy_witness.SbplImports.Walk.{Visit, canonical_of}

pub pop-push {ℓ} : {A : Type ℓ} (xs : List A) (x : A) → pop (xs ++ x ∷ []) ≡ xs
unfolding pop
pop-push [] x = refl
pop-push (y ∷ []) x = refl
pop-push (y ∷ z ∷ xs) x = ap (◌∷◌ y) (pop-push (z ∷ xs) x)

abbrev pub last? : List Bytes → Option Bytes
last? [] = none
last? (x ∷ []) = some x
last? (x ∷ y ∷ ys) = last? (y ∷ ys)

pub last?-push : (xs : List Bytes) (x : Bytes) → last? (xs ++ x ∷ []) ≡ some x
last?-push [] x = refl
last?-push (y ∷ []) x = refl
last?-push (y ∷ z ∷ xs) x = last?-push (z ∷ xs) x

pub contains_iff : (xs : List Bytes) (a : Bytes) → contains xs a ≡ true → In a xs
unfolding contains
contains_iff [] a h = cc
contains_iff (x ∷ xs) a h = ground (arith, bytes_eq_iff x a, contains_iff xs a)

module _ (sys : System) (source : Bytes) where
  -- The name leads to the file.
  pub record Resolves (name canonical : Bytes) : Type 0 where
    pub path : Bytes
    pub found : resolve_import_path sys name ≡ some path
    pub is_canonical : canonical_of sys path ≡ canonical

  -- The text of the file at hand, or of the source, holds a literal import of the name.
  pub data Imports (child : Bytes) : Option Bytes → Type 0 where
    by_source : In child (import_scan source).refs → Imports child none
    by_file :
        {canonical content : Bytes} {metadata : Metadata}
        → read_regular_file sys canonical ≡ ok (content, metadata)
        → is_utf8 content ≡ true
        → In child (import_scan content).refs
        → Imports child (some canonical)

  -- The names lead from the source to the last file, each imported by the file before it.
  pub data Chain : List Bytes → List Bytes → Type 0 where
    start : Chain [] []
    deeper :
        {names paths : List Bytes} (name canonical : Bytes)
        → Chain names paths
        → Imports name (last? paths)
        → Resolves name canonical
        → Chain (names ++ name ∷ []) (paths ++ canonical ∷ [])

  -- An import chain whose last name leads back to a file of the chain.
  pub record IsCycle (chain : List Bytes) : Type 0 where
    pub names : List Bytes
    pub paths : List Bytes
    pub name : Bytes
    pub canonical : Bytes
    pub splits : chain ≡ names ++ name ∷ []
    pub enclosing : Chain names paths
    pub imported : Imports name (last? paths)
    pub resolves : Resolves name canonical
    pub again : In canonical paths

  pub record IsTraced (s : ResolverState) : Type 0 where
    pub stack : Chain s.in_progress_names s.in_progress
    pub cyclic : (chain : List Bytes) → s.cycle ≡ some chain → IsCycle chain

  -- From `s` to `t` the stack is the same, and `t` is traced.
  pub record Returns (s t : ResolverState) : Type 0 where
    pub traced : IsTraced t
    pub same_paths : t.in_progress ≡ s.in_progress
    pub same_names : t.in_progress_names ≡ s.in_progress_names

  -- A visit of a name that the file on top of the stack imports comes back with the stack as it was.
  abbrev pub IsBalanced : Visit → Type 0
  IsBalanced visit =
      (name : Bytes) (s : ResolverState)
      → IsTraced s
      → Imports name (last? s.in_progress)
      → Returns s (visit name s)

  pub Returns-same :
      (s t : ResolverState)
      → IsTraced s
      → t.in_progress ≡ s.in_progress
      → t.in_progress_names ≡ s.in_progress_names
      → t.cycle ≡ s.cycle
      → Returns s t
  Returns-same s t h p n c = record {
    traced = record { stack = rw (n, p) h.stack; cyclic = λ chain e. h.cyclic chain (sym c ∙ e) };
    same_paths = p;
    same_names = n;
  }

  pub Returns-trans : (s t u : ResolverState) → Returns s t → Returns t u → Returns s u
  Returns-trans s t u a b = record {
    traced = b.traced;
    same_paths = b.same_paths ∙ a.same_paths;
    same_names = b.same_names ∙ a.same_names;
  }
