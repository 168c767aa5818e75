-- ===== src/SbplImports/Closure/Follows.antt =====
-- A walk that reports no failure has followed every import.
use policy_witness.Base.{
  ok, err, Result, ℕ, zero, suc, ◌+◌, ◌≤◌, true, false, List, [], ◌∷◌, foldl, ◌≡◌, refl, sym, ap,
  subst, ◌∙◌, ◌⊎◌, inl, inr, arith, Bytes, none, some, is_some, In, any, any-sort_by, if_rule, leb,
  length, set_insert, bytes_order, bytes_eq_iff, Bool-cases,
}
use policy_witness.Base.Utf8.{is_utf8}
use policy_witness.SbplLex.{import_scan}
use policy_witness.SbplImports.{
  System, Metadata, ResolverState, push_record, exceed, contains, build_import_record,
  record_of_read, read_regular_file, resolve_import_path, import_max_count, import_max_depth,
}
use policy_witness.SbplImports.Walk.{
  Visit, close_cycle, visit_too_deep, visit_content, note_error, visit_file, visit_resolved,
  visit_with, dfs_visit_import, source_state, walk_imports, record_cmp, resolve_imports,
  canonical_of,
}
use policy_witness.SbplImports.Accounts.{has_problem, resolve_imports-failure}
use policy_witness.SbplImports.Fuel.{visit_with-cases}
use policy_witness.SbplImports.Stack.{contains_iff}
use policy_witness.SbplImports.Unique.{is_at}
use policy_witness.SbplImports.Closure.{
  Failed, or_else_some, Complete-map, Leads, Covered, Inv, Post, Spec, foldl-Failed, foldl-Walked,
}
use policy_witness.SbplImports.Closure.Fails.{
  visit_unresolved-Failed, visit_unresolved-Fails, visit_resolved-Failed,
}
use policy_witness.SbplImports.Closure.Expand.{expand-Post}

contains_of_In : (xs : List Bytes) (a : Bytes) → In a xs → contains xs a ≡ true
unfolding contains
contains_of_In [] a h = absurd h
contains_of_In (x ∷ xs) a h = ground (arith, bytes_eq_iff x a, contains_of_In xs a)

module _ (sys : System) where
  visit_file-Post :
      (visit : Visit) (name path : Bytes) (s : ResolverState)
      → resolve_import_path sys name ≡ some path
      → Spec sys visit
      → Inv sys s
      → Post sys name s (
          visit_file sys visit name
            (canonical_of sys path)
            (record s { visited = set_insert (canonical_of sys path) s.visited }))
  unfolding visit_file visit_content build_import_record record_of_read
  visit_file-Post visit name path s found spec inv =
      go (read_regular_file sys (canonical_of sys path)) refl
    where
      go :
          (r : Result (Bytes × Metadata))
          → read_regular_file sys (canonical_of sys path) ≡ r
          → let built = record_of_read sys name (canonical_of sys path) r in
            Post sys name s (
              visit_content sys visit name (canonical_of sys path) built.1 (
                push_record built.0 (
                  note_error sys name built.0.error
                    (record s { visited = set_insert (canonical_of sys path) s.visited }))))
      go (err e) read = inl (or_else_some s.failure _)
      go (ok (content, metadata)) read =
          if_rule (Post sys name s) (is_utf8 content) _ _
            (λ text. expand-Post sys visit name path content metadata s found read text spec inv)
            (λ _. inl (or_else_some s.failure _))

  visit_resolved-Post :
      (visit : Visit) (depth : ℕ) (name path : Bytes) (s : ResolverState)
      → resolve_import_path sys name ≡ some path
      → (leb import_max_depth depth ≡ false → Spec sys visit)
      → Inv sys s
      → Post sys name s (visit_resolved sys visit depth name (canonical_of sys path) s)
  unfolding visit_resolved close_cycle exceed visit_too_deep
  visit_resolved-Post visit depth name path s found spec inv =
      let canonical = canonical_of sys path in
      if_rule (Post sys name s) (contains s.in_progress canonical) _ _
        (λ _.
          if_rule (Post sys name s) (is_some s.cycle) _ _
            (λ t. absurd (let f = subst (λ o. is_some o ≡ true) inv.no_cycle t in cc))
            (λ _. inl (or_else_some s.failure _)))
        (λ fresh.
          if_rule (Post sys name s) (contains s.visited canonical) _ _
            (λ seen. elim (inv.closed canonical (contains_iff s.visited canonical seen)) [
              | inl k ↦ absurd (cc (contains_of_In s.in_progress canonical k))
              | inr whole ↦ inr (inv, ((path, (found, whole)), (refl, λ c i. i)))
            ])
            (λ _.
              if_rule (Post sys name s) (leb import_max_count (length s.records)) _ _
                (λ _. inl (or_else_some s.failure _))
                (λ _.
                  if_rule (Post sys name s) (leb import_max_depth depth) _ _
                    (λ _. inl (or_else_some s.failure _))
                    (λ shallow. visit_file-Post visit name path s found (spec shallow) inv))))

  visit_with-Spec :
      (visit : Visit) (depth : ℕ)
      → (leb import_max_depth depth ≡ false → Spec sys visit)
      → Spec sys (visit_with sys visit depth)
  visit_with-Spec visit depth spec name s = (
    λ h.
        visit_with-cases sys Failed visit depth name s
          (λ path _. visit_resolved-Failed sys visit depth name (canonical_of sys path) s spec h)
          (visit_unresolved-Failed sys name s h),
    λ inv.
        visit_with-cases sys (Post sys name s) visit depth name s
          (λ path found. visit_resolved-Post visit depth name path s found spec inv)
          (inl (visit_unresolved-Fails sys name s inv)),
  )

  dfs_visit_import-Spec :
      (fuel depth : ℕ) → 8 ≤ fuel + depth → Spec sys (dfs_visit_import sys fuel depth)
  unfolding dfs_visit_import
  dfs_visit_import-Spec zero depth h =
      visit_with-Spec (λ child t. t) depth (λ shallow. absurd (ground arith))
  dfs_visit_import-Spec (suc fuel) depth h =
      visit_with-Spec (dfs_visit_import sys fuel (depth + 1)) depth
        (λ shallow. dfs_visit_import-Spec fuel (depth + 1) (omega arith))

  source_state-Inv : Inv sys (source_state true)
  source_state-Inv = record {
    no_cycle = refl;
    all_found = refl;
    recorded = λ c i. absurd i;
    closed = λ c i. absurd i;
  }

  -- The walk fails, or every import of the source is covered.
  walk_imports-Covered :
      (source : Bytes)
      → Failed (walk_imports sys source)
        ⊎ (((import_scan source).scan_complete ≡ true)
            × (Inv sys (walk_imports sys source)
                × ((name : Bytes)
                    → In name (import_scan source).refs
                    → Covered sys name (walk_imports sys source))))
  unfolding walk_imports
  walk_imports-Covered source =
      let scan = import_scan source in
      let visit = dfs_visit_import sys import_max_depth 0 in
      let spec = dfs_visit_import-Spec import_max_depth 0 (omega arith) in
      let walk = λ (s : ResolverState). foldl (λ t child. visit child t) s scan.refs in
      elim (Bool-cases scan.scan_complete) [
        | inl e ↦
            elim (foldl-Walked sys visit scan.refs (source_state true) spec source_state-Inv) [
              | inl f ↦ inl (subst (λ b. Failed (walk (source_state b))) (sym e) f)
              | inr (inv, (covered, rest)) ↦ inr (
                e,
                (
                  subst (λ b. Inv sys (walk (source_state b))) (sym e) inv,
                  λ name i.
                      subst (λ b. Covered sys name (walk (source_state b))) (sym e)
                        (covered name i),
                ),
              )
            ]
        | inr e ↦ inl (
            subst (λ b. Failed (walk (source_state b))) (sym e)
              (foldl-Failed sys visit scan.refs (source_state false) spec refl))
      ]

-- A walk that reports no failure has followed everything: no record carries an error, no bound was
-- hit, no cycle was met, the source holds literal imports alone, and each of them resolves to a
-- file that has a record, is read, is UTF-8 and holds literal imports alone, each of which again
-- resolves to such a file, down to files without an import.
pub resolve_imports-Complete :
    (sys : System) (source : Bytes)
    → let r = resolve_imports sys source in
      r.failure ≡ none
      → (has_problem r.records r.truncated r.cycle r.nonliteral_imports ≡ false)
        × ((import_scan source).scan_complete ≡ true)
        × ((name : Bytes)
            → In name (import_scan source).refs
            → Leads sys (λ file. any (is_at (sys.display file)) r.records ≡ true) name)
unfolding resolve_imports
resolve_imports-Complete sys source h =
    let state = walk_imports sys source in
    let told = (resolve_imports-failure sys source).0 in
    let quiet : is_some state.failure ≡ false = ap is_some h in
    elim (walk_imports-Covered sys source) [
      | inl f ↦ absurd (cc (f, quiet))
      | inr (literal, (inv, covered)) ↦ (
        sym told ∙ quiet,
        literal,
        λ name i.
            let (path, (found, whole)) = covered name i in
            (
              path,
              (
                found,
                Complete-map sys _ _ (canonical_of sys path)
                    (λ c v.
                      any-sort_by record_cmp (is_at (sys.display c)) state.records
                      ∙ inv.recorded c v)
                    whole,
              ),
            ),
      )
    ]
