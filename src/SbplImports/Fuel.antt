-- ===== src/SbplImports/Fuel.antt =====
-- The recursion of the walk: the depth bound ends it, and a rule to carry an invariant through it.
use policy_witness.Base.{
  ℕ, zero, suc, ◌+◌, ◌≤◌, List, [], ◌∷◌, ◌≡◌, refl, ◌∙◌, ap, arith, Bytes, Option, none, some,
  foldl,
}
use mathlib.Core.Path.{fun_ext}
use policy_witness.SbplLex.{import_scan}
use policy_witness.SbplImports.{System, ResolverState, resolve_import_path, import_max_depth}
use policy_witness.SbplImports.Walk.{
  source_state, walk_imports, Visit, canonical_of, visit_resolved, visit_unresolved, visit_with,
  dfs_visit_import,
}

-- At the depth limit the recursive call is not made.
visit_resolved-at_limit :
    (sys : System) (visit visit' : Visit) (depth : ℕ) (name canonical : Bytes) (s : ResolverState)
    → 8 ≤ depth
    → visit_resolved sys visit depth name canonical s
      ≡ visit_resolved sys visit' depth name canonical s
unfolding visit_resolved
visit_resolved-at_limit sys visit visit' depth name canonical s h = ground arith

visit_with-at_limit :
    (sys : System) (visit visit' : Visit) (depth : ℕ) (name : Bytes) (s : ResolverState)
    → 8 ≤ depth
    → visit_with sys visit depth name s ≡ visit_with sys visit' depth name s
unfolding visit_with
visit_with-at_limit sys visit visit' depth name s h = go (resolve_import_path sys name)
  where
    go :
        (o : Option Bytes)
        → elim o [
          | some path ↦ visit_resolved sys visit depth name (canonical_of sys path) s
          | none ↦ visit_unresolved sys name s
        ]
          ≡ elim o [
            | some path ↦ visit_resolved sys visit' depth name (canonical_of sys path) s
            | none ↦ visit_unresolved sys name s
          ]
    go none = refl
    go (some path) = visit_resolved-at_limit sys visit visit' depth name (canonical_of sys path) s h

dfs_visit_import-fuel :
    (sys : System) (fuel depth : ℕ)
    → 8 ≤ depth + fuel
    → dfs_visit_import sys (suc fuel) depth ≡ dfs_visit_import sys fuel depth
unfolding dfs_visit_import
dfs_visit_import-fuel sys zero depth h =
    fun_ext (λ name. fun_ext (λ s. visit_with-at_limit sys _ _ depth name s (omega arith)))
dfs_visit_import-fuel sys (suc fuel) depth h =
    ap (λ (visit : Visit). visit_with sys visit depth)
      (dfs_visit_import-fuel sys fuel (depth + 1) (omega arith))

-- The depth bound ends the recursion: with a fuel of 8 at depth 0 no call runs out of it, and a walk
-- with any more fuel is the same walk.
pub dfs_visit_import-more :
    (sys : System) (more : ℕ)
    → dfs_visit_import sys (import_max_depth + more) 0 ≡ dfs_visit_import sys import_max_depth 0
dfs_visit_import-more sys zero = ap (λ n. dfs_visit_import sys n 0) (omega arith)
dfs_visit_import-more sys (suc more) =
    let e : import_max_depth + suc more ≡ suc (import_max_depth + more) = omega arith in
    ap (λ n. dfs_visit_import sys n 0) e
    ∙ dfs_visit_import-fuel sys (import_max_depth + more) 0 (omega arith)
    ∙ dfs_visit_import-more sys more

-- `visit` keeps the property.
abbrev pub Keeps {ℓ} : (ResolverState → Type ℓ) → Visit → Type ℓ
Keeps P visit = (name : Bytes) (s : ResolverState) → P s → P (visit name s)

pub foldl-Keeps {ℓ} :
    (P : ResolverState → Type ℓ) (visit : Visit) (names : List Bytes) (s : ResolverState)
    → Keeps P visit
    → P s
    → P (foldl (λ t child. visit child t) s names)
foldl-Keeps P visit [] s keep h = h
foldl-Keeps P visit (n ∷ ns) s keep h = foldl-Keeps P visit ns (visit n s) keep (keep n s h)

-- What holds of the empty visit, and of a round over any visit of which it holds, holds of the walk.
pub dfs_visit_import-rule {ℓ} :
    (sys : System) (Q : Visit → Type ℓ)
    → Q (λ name s. s)
    → ((visit : Visit) (depth : ℕ) → Q visit → Q (visit_with sys visit depth))
    → (fuel depth : ℕ) → Q (dfs_visit_import sys fuel depth)
unfolding dfs_visit_import
dfs_visit_import-rule sys Q idle round zero depth = round (λ name s. s) depth idle
dfs_visit_import-rule sys Q idle round (suc fuel) depth =
    round (dfs_visit_import sys fuel (depth + 1)) depth
      (dfs_visit_import-rule sys Q idle round fuel (depth + 1))

pub walk_imports-Keeps {ℓ} :
    (sys : System) (P : ResolverState → Type ℓ) (source : Bytes)
    → ((visit : Visit) (depth : ℕ) → Keeps P visit → Keeps P (visit_with sys visit depth))
    → P (source_state (import_scan source).scan_complete)
    → P (walk_imports sys source)
unfolding walk_imports
walk_imports-Keeps sys P source round h =
    foldl-Keeps P (dfs_visit_import sys import_max_depth 0) (import_scan source).refs
      (source_state (import_scan source).scan_complete)
      (dfs_visit_import-rule sys (Keeps P) (λ name s t. t) round import_max_depth 0) h

-- The two outcomes of the resolution, for a property of a round.
pub visit_with-cases {ℓ} :
    (sys : System) (P : ResolverState → Type ℓ) (visit : Visit) (depth : ℕ) (name : Bytes)
    (s : ResolverState)
    → ((path : Bytes)
        → resolve_import_path sys name ≡ some path
        → P (visit_resolved sys visit depth name (canonical_of sys path) s))
    → P (visit_unresolved sys name s)
    → P (visit_with sys visit depth name s)
unfolding visit_with
visit_with-cases sys P visit depth name s found missing = go (resolve_import_path sys name) refl
  where
    go :
        (o : Option Bytes)
        → resolve_import_path sys name ≡ o
        → P (elim o [
          | some path ↦ visit_resolved sys visit depth name (canonical_of sys path) s
          | none ↦ visit_unresolved sys name s
        ])
    go none e = missing
    go (some path) e = found path e
