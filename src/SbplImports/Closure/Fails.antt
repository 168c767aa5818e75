-- ===== src/SbplImports/Closure/Fails.antt =====
-- A walk that has failed stays failed.
use policy_witness.Base.{
  ℕ, true, false, [], ◌∷◌, ◌++◌, ◌≡◌, subst, Bytes, Option, none, some, is_some, if_rule, leb,
  length, set_insert, bytes_order,
}
use policy_witness.Base.Utf8.{is_utf8}
use policy_witness.SbplLex.{import_scan}
use policy_witness.SbplImports.{
  System, ResolverState, push_record, exceed, contains, build_import_record, import_max_count,
  import_max_depth,
}
use policy_witness.SbplImports.Walk.{
  Visit, visit_unresolved, close_cycle, visit_too_deep, note_scan, expand, visit_content,
  note_error, visit_file, visit_resolved,
}
use policy_witness.SbplImports.Closure.{Failed, or_else_some, Inv, Spec, foldl-Failed}

module _ (sys : System) where
  pub visit_unresolved-Failed :
      (name : Bytes) (s : ResolverState) → Failed s → Failed (visit_unresolved sys name s)
  unfolding visit_unresolved exceed
  visit_unresolved-Failed name s h =
      if_rule Failed (contains s.unresolved_seen name) _ _ (λ _. h)
        (λ _.
          if_rule Failed (leb import_max_count (length s.records)) _ _
            (λ _. or_else_some s.failure _) (λ _. or_else_some s.failure _))

  pub visit_unresolved-Fails :
      (name : Bytes) (s : ResolverState) → Inv sys s → Failed (visit_unresolved sys name s)
  unfolding visit_unresolved exceed contains
  visit_unresolved-Fails name s inv =
      if_rule Failed (contains s.unresolved_seen name) _ _
        (λ t. absurd (let f = subst (λ l. contains l name ≡ true) inv.all_found t in cc))
        (λ _.
          if_rule Failed (leb import_max_count (length s.records)) _ _
            (λ _. or_else_some s.failure _) (λ _. or_else_some s.failure _))

  expand-Failed :
      (visit : Visit) (name canonical content : Bytes) (s : ResolverState)
      → Spec sys visit
      → Failed s
      → Failed (expand sys visit name canonical content s)
  unfolding expand
  expand-Failed visit name canonical content s spec h =
      let scan = import_scan content in
      let entered = record s {
        in_progress = s.in_progress ++ canonical ∷ [];
        in_progress_names = s.in_progress_names ++ name ∷ [];
      } in
      foldl-Failed sys visit scan.refs (note_scan sys name scan.scan_complete entered) spec
        (if_rule Failed scan.scan_complete entered _ (λ _. h) (λ _. or_else_some s.failure _))

  visit_content-Failed :
      (visit : Visit) (name canonical : Bytes) (content : Option Bytes) (s : ResolverState)
      → Spec sys visit
      → Failed s
      → Failed (visit_content sys visit name canonical content s)
  unfolding visit_content
  visit_content-Failed visit name canonical none s spec h = h
  visit_content-Failed visit name canonical (some bytes) s spec h =
      if_rule Failed (is_utf8 bytes) _ _ (λ _. expand-Failed visit name canonical bytes s spec h)
        (λ _. or_else_some s.failure _)

  noted-Failed :
      (name : Bytes) (e : Option Bytes) (s : ResolverState)
      → Failed s
      → Failed (note_error sys name e s)
  noted-Failed name none s h = h
  noted-Failed name (some e) s h = or_else_some s.failure _

  pub visit_resolved-Failed :
      (visit : Visit) (depth : ℕ) (name canonical : Bytes) (s : ResolverState)
      → (leb import_max_depth depth ≡ false → Spec sys visit)
      → Failed s
      → Failed (visit_resolved sys visit depth name canonical s)
  unfolding visit_resolved close_cycle exceed visit_too_deep visit_file
  visit_resolved-Failed visit depth name canonical s spec h =
      let built = build_import_record sys name canonical in
      let marked = record s { visited = set_insert canonical s.visited } in
      if_rule Failed (contains s.in_progress canonical) _ _
        (λ _. if_rule Failed (is_some s.cycle) _ _ (λ _. h) (λ _. or_else_some s.failure _))
        (λ _.
          if_rule Failed (contains s.visited canonical) _ _ (λ _. h)
            (λ _.
              if_rule Failed (leb import_max_count (length s.records)) _ _
                (λ _. or_else_some s.failure _)
                (λ _.
                  if_rule Failed (leb import_max_depth depth) _ _ (λ _. or_else_some s.failure _)
                    (λ shallow.
                      visit_content-Failed visit name canonical built.1
                        (push_record built.0 (note_error sys name built.0.error marked))
                        (spec shallow) (noted-Failed name built.0.error marked h)))))
