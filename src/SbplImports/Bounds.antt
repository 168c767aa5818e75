-- ===== src/SbplImports/Bounds.antt =====
-- The bound on the number of records.
use policy_witness.Base.{
  set_insert, bytes_order, ℕ, suc, ◌≤◌, List, [], ◌∷◌, ◌≡◌, refl, ap, arith, Bytes, Option, none,
  some, length, length-append, length-sort_by, if_rule, ◌<◌,
}
use policy_witness.Base.Utf8.{is_utf8}
use policy_witness.SbplLex.{import_scan}
use policy_witness.SbplImports.{
  System, ImportRecord, ResolverState, push_record, exceed, import_max_count, build_import_record,
}
use policy_witness.SbplImports.Walk.{
  not_utf8, unresolved_record, deep_record, Visit, visit_unresolved, close_cycle, visit_too_deep,
  expand, blame_last, visit_content, note_error, visit_file, visit_resolved, visit_with,
  walk_imports, record_cmp, resolve_imports, canonical_of,
}
use policy_witness.SbplImports.Fuel.{Keeps, foldl-Keeps, walk_imports-Keeps, visit_with-cases}

abbrev Within : ResolverState → Type 0
Within s = length s.records ≤ import_max_count

length-blame_last : (why : Bytes) (rs : List ImportRecord) → length (blame_last why rs) ≡ length rs
unfolding blame_last
length-blame_last why [] = refl
length-blame_last why (r ∷ []) = refl
length-blame_last why (r ∷ q ∷ rs) = ap suc (length-blame_last why (q ∷ rs))

visit_unresolved-Within :
    (sys : System) (name : Bytes) (s : ResolverState)
    → Within s
    → Within (visit_unresolved sys name s)
unfolding visit_unresolved exceed
visit_unresolved-Within sys name s h =
    ground (arith, length-append s.records (unresolved_record name ∷ []))

expand-Within :
    (sys : System) (visit : Visit) (name canonical content : Bytes) (s : ResolverState)
    → Keeps Within visit
    → Within s
    → Within (expand sys visit name canonical content s)
unfolding expand
expand-Within sys visit name canonical content s keep h =
    foldl-Keeps Within visit (import_scan content).refs _ keep
      (if_rule Within (import_scan content).scan_complete _ _ (λ _. h) (λ _. h))

visit_content-Within :
    (sys : System) (visit : Visit) (name canonical : Bytes) (content : Option Bytes)
    (s : ResolverState)
    → Keeps Within visit
    → Within s
    → Within (visit_content sys visit name canonical content s)
unfolding visit_content
visit_content-Within sys visit name canonical none s keep h = h
visit_content-Within sys visit name canonical (some bytes) s keep h =
    if_rule Within (is_utf8 bytes) _ _ (λ _. expand-Within sys visit name canonical bytes s keep h)
      (λ _. rw (length-blame_last not_utf8 s.records) h)

length-note_error :
    (sys : System) (name : Bytes) (e : Option Bytes) (s : ResolverState)
    → length (note_error sys name e s).records ≡ length s.records
length-note_error sys name none s = refl
length-note_error sys name (some e) s = refl

visit_file-Within :
    (sys : System) (visit : Visit) (name canonical : Bytes) (s : ResolverState)
    → Keeps Within visit
    → length s.records < import_max_count
    → Within (visit_file sys visit name canonical s)
unfolding visit_file
visit_file-Within sys visit name canonical s keep h =
    let built = build_import_record sys name canonical in
    visit_content-Within sys visit name canonical built.1
      (push_record built.0 (note_error sys name built.0.error s)) keep
      (omega (
        arith,
        length-append (note_error sys name built.0.error s).records (built.0 ∷ []),
        length-note_error sys name built.0.error s,
      ))

visit_resolved-Within :
    (sys : System) (visit : Visit) (depth : ℕ) (name canonical : Bytes) (s : ResolverState)
    → Keeps Within visit
    → Within s
    → Within (visit_resolved sys visit depth name canonical s)
unfolding visit_resolved close_cycle exceed visit_too_deep
visit_resolved-Within sys visit depth name canonical s keep h = ground (
  arith,
  length-append s.records (deep_record name (sys.display canonical) ∷ []),
  visit_file-Within sys visit name canonical (record s { visited = set_insert canonical s.visited })
      keep,
)

visit_with-Within :
    (sys : System) (visit : Visit) (depth : ℕ)
    → Keeps Within visit
    → Keeps Within (visit_with sys visit depth)
visit_with-Within sys visit depth keep name s h =
    visit_with-cases sys Within visit depth name s
      (λ path _. visit_resolved-Within sys visit depth name (canonical_of sys path) s keep h)
      (visit_unresolved-Within sys name s h)

-- However large the closure, the walk reports at most 64 records.
pub resolve_imports-Within :
    (sys : System) (source : Bytes) → length (resolve_imports sys source).records ≤ import_max_count
unfolding resolve_imports
resolve_imports-Within sys source =
    rw (length-sort_by record_cmp (walk_imports sys source).records)
      (walk_imports-Keeps sys Within source (visit_with-Within sys) (omega arith))
