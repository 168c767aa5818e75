-- ===== src/SbplImports/Once.antt =====
-- The walk records each file and each missing name once.
use policy_witness.Base.{
  Result, ok, err, ℕ, ◌≤◌, false, Bool, [], ◌∷◌, ◌++◌, ◌≡◌, refl, arith, Bytes, Option, none, some,
  leb, length, count_if, count_if-sort_by, if_rule, set_insert, bytes_order, is_some, true,
}
use policy_witness.Base.Utf8.{is_utf8}
use policy_witness.SbplLex.{import_scan}
use policy_witness.SbplImports.{
  System, ImportRecord, Metadata, ResolverState, push_record, exceed, build_import_record,
  record_of_read, read_regular_file, contains, resolve_import_path,
}
use policy_witness.SbplImports.Walk.{
  not_utf8, deep_record, Visit, visit_unresolved, close_cycle, visit_too_deep, note_scan, expand,
  visit_content, note_error, visit_file, visit_resolved, visit_with, source_state, walk_imports,
  record_cmp, resolve_imports, canonical_of,
}
use policy_witness.SbplImports.{import_max_count, import_max_depth}
use policy_witness.SbplImports.Fuel.{Keeps, foldl-Keeps, walk_imports-Keeps, visit_with-cases}
use policy_witness.SbplImports.Unique.{
  is_at, is_missing, IsUnique, IsUnique-same, IsUnique-seen, IsUnique-file, IsUnique-missing,
  IsUnique-blamed,
}

resolved_path-build_import_record :
    (sys : System) (name canonical : Bytes)
    → (build_import_record sys name canonical).0.resolved_path ≡ some (sys.display canonical)
unfolding build_import_record
resolved_path-build_import_record sys name canonical = go (read_regular_file sys canonical)
  where
    go :
        (r : Result (Bytes × Metadata))
        → (record_of_read sys name canonical r).0.resolved_path ≡ some (sys.display canonical)
    go (ok (bytes, metadata)) = refl
    go (err e) = refl

-- An error is noted in the failure alone.
note_error_fields :
    (sys : System) (name : Bytes) (e : Option Bytes) (s : ResolverState)
    → ((note_error sys name e s).records ≡ s.records)
      × ((note_error sys name e s).visited ≡ s.visited)
      × ((note_error sys name e s).unresolved_seen ≡ s.unresolved_seen)
note_error_fields sys name none s = (refl, refl, refl)
note_error_fields sys name (some e) s = (refl, refl, refl)

module _ (sys : System) (exact : (path : Bytes) → is_utf8 path ≡ true → sys.display path ≡ path)
    (utf8_paths : (name path : Bytes)
      → resolve_import_path sys name ≡ some path
      → is_utf8 (canonical_of sys path) ≡ true) where
  abbrev Unique : ResolverState → Type 0
  Unique = IsUnique sys exact

  same :
      (s t : ResolverState)
      → Unique s
      → t.records ≡ s.records
      → t.visited ≡ s.visited
      → t.unresolved_seen ≡ s.unresolved_seen
      → Unique t
  same = IsUnique-same sys exact

  visit_unresolved-IsUnique :
      (name : Bytes) (s : ResolverState) → Unique s → Unique (visit_unresolved sys name s)
  unfolding visit_unresolved exceed
  visit_unresolved-IsUnique name s h =
      if_rule Unique (contains s.unresolved_seen name) _ _ (λ _. h)
        (λ fresh.
          if_rule Unique (leb import_max_count (length s.records)) _ _
            (λ _. IsUnique-seen sys exact s _ name h refl refl refl)
            (λ _. IsUnique-missing sys exact s _ name h fresh refl refl refl))

  expand-IsUnique :
      (visit : Visit) (name canonical content : Bytes) (s : ResolverState)
      → Keeps Unique visit
      → Unique s
      → Unique (expand sys visit name canonical content s)
  unfolding expand
  expand-IsUnique visit name canonical content s keep h =
      let scan = import_scan content in
      let entered = record s {
        in_progress = s.in_progress ++ canonical ∷ [];
        in_progress_names = s.in_progress_names ++ name ∷ [];
      } in
      let noted =
        if_rule Unique scan.scan_complete entered _ (λ _. same s entered h refl refl refl)
          (λ _. same s _ h refl refl refl) in
      same _ _
        (foldl-Keeps Unique visit scan.refs (note_scan sys name scan.scan_complete entered) keep
          noted)
        refl refl refl

  pushed-IsUnique :
      (name canonical : Bytes) (e : Option Bytes) (r : ImportRecord) (s : ResolverState)
      → Unique s
      → is_utf8 canonical ≡ true
      → contains s.visited canonical ≡ false
      → r.resolved_path ≡ some (sys.display canonical)
      → Unique (
          push_record r
            (note_error sys name e (record s { visited = set_insert canonical s.visited })))
  pushed-IsUnique name canonical none r s h text fresh shown =
      IsUnique-file sys exact s _ r canonical h text fresh shown refl refl refl
  pushed-IsUnique name canonical (some e) r s h text fresh shown =
      IsUnique-file sys exact s _ r canonical h text fresh shown refl refl refl

  visit_content-IsUnique :
      (visit : Visit) (name canonical : Bytes) (content : Option Bytes) (s : ResolverState)
      → Keeps Unique visit
      → Unique s
      → Unique (visit_content sys visit name canonical content s)
  unfolding visit_content
  visit_content-IsUnique visit name canonical none s keep h = h
  visit_content-IsUnique visit name canonical (some bytes) s keep h =
      if_rule Unique (is_utf8 bytes) _ _ (λ _. expand-IsUnique visit name canonical bytes s keep h)
        (λ _. IsUnique-blamed sys exact s _ not_utf8 h refl refl refl)

  visit_resolved-IsUnique :
      (visit : Visit) (depth : ℕ) (name canonical : Bytes) (s : ResolverState)
      → Keeps Unique visit
      → is_utf8 canonical ≡ true
      → Unique s
      → Unique (visit_resolved sys visit depth name canonical s)
  unfolding visit_resolved close_cycle exceed visit_too_deep visit_file
  visit_resolved-IsUnique visit depth name canonical s keep text h =
      let built = build_import_record sys name canonical in
      let shown = resolved_path-build_import_record sys name canonical in
      if_rule Unique (contains s.in_progress canonical) _ _
        (λ _. if_rule Unique (is_some s.cycle) _ _ (λ _. h) (λ _. same s _ h refl refl refl))
        (λ _.
          if_rule Unique (contains s.visited canonical) _ _ (λ _. h)
            (λ fresh.
              if_rule Unique (leb import_max_count (length s.records)) _ _
                (λ _. same s _ h refl refl refl)
                (λ _.
                  if_rule Unique (leb import_max_depth depth) _ _
                    (λ _.
                      IsUnique-file sys exact s _ (deep_record name (sys.display canonical))
                        canonical h text fresh refl refl refl refl)
                    (λ _. visit_content-IsUnique visit name canonical built.1 _ keep (
                      pushed-IsUnique name canonical built.0.error built.0 s h text fresh shown)))))

  visit_with-IsUnique :
      (visit : Visit) (depth : ℕ) → Keeps Unique visit → Keeps Unique (visit_with sys visit depth)
  visit_with-IsUnique visit depth keep name s h =
      visit_with-cases sys Unique visit depth name s
        (λ path found.
          visit_resolved-IsUnique visit depth name (canonical_of sys path) s keep
            (utf8_paths name path found) h)
        (visit_unresolved-IsUnique name s h)

  source_state-IsUnique : (complete : Bool) → Unique (source_state complete)
  unfolding count_if
  source_state-IsUnique complete = record {
    once = λ path. omega arith;
    met = λ file u k. absurd (omega arith);
    once_missing = λ name. omega arith;
    met_missing = λ name k. absurd (omega arith);
  }

-- Where `Path::display` shows a path that is UTF-8 as it is, and the file system has no other paths
-- for the names that resolve, no file has two records; and no unresolved name has two records.
pub resolve_imports-once :
    (sys : System) (source : Bytes)
    → ((path : Bytes) → is_utf8 path ≡ true → sys.display path ≡ path)
    → ((name path : Bytes)
        → resolve_import_path sys name ≡ some path
        → is_utf8 (canonical_of sys path) ≡ true)
    → ((path : Bytes) → count_if (is_at path) (resolve_imports sys source).records ≤ 1)
      × ((name : Bytes) → count_if (is_missing name) (resolve_imports sys source).records ≤ 1)
unfolding resolve_imports
resolve_imports-once sys source exact utf8_paths =
    let state = walk_imports sys source in
    let h =
      walk_imports-Keeps sys (IsUnique sys exact) source (visit_with-IsUnique sys exact utf8_paths)
        (source_state-IsUnique sys exact utf8_paths (import_scan source).scan_complete) in
    (
      λ path. rw (count_if-sort_by record_cmp (is_at path) state.records) (h.once path),
      λ name.
          rw (count_if-sort_by record_cmp (is_missing name) state.records) (h.once_missing name),
    )
