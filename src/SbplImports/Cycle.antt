-- ===== src/SbplImports/Cycle.antt =====
-- The walk keeps its stack, and a cycle that it reports is one.
use policy_witness.Base.{
  Result, ok, err, ℕ, Bool, true, false, List, [], ◌∷◌, ◌++◌, ◌≡◌, inl, inr, refl, sym, ◌∙◌, ap,
  Bytes, Option, none, some, is_some, In, foldl, if_rule, set_insert, bytes_order, leb, length,
}
use policy_witness.Base.Utf8.{is_utf8}
use policy_witness.SbplLex.{import_scan}
use policy_witness.SbplImports.{
  System, Metadata, ImportRecord, ResolverState, contains, pop, push_record, exceed,
  read_regular_file, record_of_read, build_import_record, import_max_depth, import_max_count,
}
use policy_witness.SbplImports.Walk.{
  Visit, visit_unresolved, close_cycle, visit_too_deep, note_scan, expand, visit_content,
  note_error, visit_file, visit_resolved, visit_with, dfs_visit_import, source_state, walk_imports,
  resolve_imports, canonical_of,
}
use policy_witness.SbplImports.Fuel.{dfs_visit_import-rule, visit_with-cases}
use policy_witness.SbplImports.Stack.{
  pop-push, last?, last?-push, contains_iff, Resolves, Imports, by_source, by_file, start, deeper,
  IsCycle, IsTraced, Returns, IsBalanced, Returns-same, Returns-trans,
}

-- The content that a record was built from is what the file holds.
read-build_import_record :
    (sys : System) (name canonical : Bytes) (content : Bytes)
    → (build_import_record sys name canonical).1 ≡ some content
    → (metadata : Metadata) × (read_regular_file sys canonical ≡ ok (content, metadata))
unfolding build_import_record
read-build_import_record sys name canonical content h = go (read_regular_file sys canonical) h
  where
    go :
        (r : Result (Bytes × Metadata))
        → (record_of_read sys name canonical r).1 ≡ some content
        → (metadata : Metadata) × (r ≡ ok (content, metadata))
    go (err e) k = cc
    go (ok (bytes, metadata)) k = (metadata, cc)

note_scan_fields :
    (sys : System) (name : Bytes) (complete : Bool) (s : ResolverState)
    → ((note_scan sys name complete s).in_progress ≡ s.in_progress)
      × ((note_scan sys name complete s).in_progress_names ≡ s.in_progress_names)
      × ((note_scan sys name complete s).cycle ≡ s.cycle)
note_scan_fields sys name true s = (refl, refl, refl)
note_scan_fields sys name false s = (refl, refl, refl)

module _ (sys : System) (source : Bytes) where
  abbrev Back : ResolverState → ResolverState → Type 0
  Back = Returns sys source

  foldl-Returns :
      (visit : Visit) (children : List Bytes) (s : ResolverState)
      → IsBalanced sys source visit
      → IsTraced sys source s
      → ((child : Bytes) → In child children → Imports sys source child (last? s.in_progress))
      → Back s (foldl (λ t child. visit child t) s children)
  foldl-Returns visit [] s b h i = Returns-same sys source s s h refl refl refl
  foldl-Returns visit (c ∷ cs) s b h i =
      let first = b c s h (i c (inl refl)) in
      Returns-trans sys source s (visit c s) _ first (
        foldl-Returns visit cs (visit c s) b first.traced
          (λ child m. rw first.same_paths (i child (inr m))))

  expand-Returns :
      (visit : Visit) (name canonical content : Bytes) (s : ResolverState)
      → IsBalanced sys source visit
      → IsTraced sys source s
      → Imports sys source name (last? s.in_progress)
      → Resolves sys source name canonical
      → ((child : Bytes)
          → In child (import_scan content).refs
          → Imports sys source child (some canonical))
      → Back s (expand sys visit name canonical content s)
  unfolding expand
  expand-Returns visit name canonical content s b h i r children =
      let scan = import_scan content in
      let entered = record s {
        in_progress = s.in_progress ++ canonical ∷ [];
        in_progress_names = s.in_progress_names ++ name ∷ [];
      } in
      let noted = note_scan sys name scan.scan_complete entered in
      let (paths, names, cycle) = note_scan_fields sys name scan.scan_complete entered in
      let inside : IsTraced sys source noted = record {
        stack = rw (names, paths) (deeper name canonical h.stack i r);
        cyclic = λ chain e. h.cyclic chain (sym cycle ∙ e);
      } in
      let walked =
        foldl-Returns visit scan.refs noted b inside
          (λ child m. rw (paths, last?-push s.in_progress canonical) (children child m)) in
      let back_paths = ap pop (walked.same_paths ∙ paths) ∙ pop-push s.in_progress canonical in
      let back_names = ap pop (walked.same_names ∙ names) ∙ pop-push s.in_progress_names name in
      record {
        traced = record {
          stack = rw (back_names, back_paths) h.stack;
          cyclic = walked.traced.cyclic;
        };
        same_paths = back_paths;
        same_names = back_names;
      }

  note_error-Returns :
      (name : Bytes) (e : Option Bytes) (r : ImportRecord) (s : ResolverState)
      → IsTraced sys source s
      → Back s (push_record r (note_error sys name e s))
  note_error-Returns name none r s h = Returns-same sys source s _ h refl refl refl
  note_error-Returns name (some e) r s h = Returns-same sys source s _ h refl refl refl

  visit_content-Returns :
      (visit : Visit) (name canonical : Bytes) (content : Option Bytes) (s : ResolverState)
      → IsBalanced sys source visit
      → IsTraced sys source s
      → Imports sys source name (last? s.in_progress)
      → Resolves sys source name canonical
      → ((bytes : Bytes)
          → content ≡ some bytes
          → (metadata : Metadata) × (read_regular_file sys canonical ≡ ok (bytes, metadata)))
      → Back s (visit_content sys visit name canonical content s)
  unfolding visit_content
  visit_content-Returns visit name canonical none s b h i r read =
      Returns-same sys source s s h refl refl refl
  visit_content-Returns visit name canonical (some bytes) s b h i r read =
      if_rule (Back s) (is_utf8 bytes) _ _
        (λ utf8.
          let (metadata, e) = read bytes refl in
          expand-Returns visit name canonical bytes s b h i r (λ child m. by_file e utf8 m))
        (λ _. Returns-same sys source s _ h refl refl refl)

  visit_file-Returns :
      (visit : Visit) (name canonical : Bytes) (s : ResolverState)
      → IsBalanced sys source visit
      → IsTraced sys source s
      → Imports sys source name (last? s.in_progress)
      → Resolves sys source name canonical
      → Back s (visit_file sys visit name canonical s)
  unfolding visit_file
  visit_file-Returns visit name canonical s b h i r =
      let built = build_import_record sys name canonical in
      let noted = push_record built.0 (note_error sys name built.0.error s) in
      let first = note_error-Returns name built.0.error built.0 s h in
      Returns-trans sys source s noted _ first (
        visit_content-Returns visit name canonical built.1 noted b first.traced
          (rw first.same_paths i) r
          (λ bytes e. read-build_import_record sys name canonical bytes e))

  close_cycle-Returns :
      (name canonical : Bytes) (s : ResolverState)
      → IsTraced sys source s
      → Imports sys source name (last? s.in_progress)
      → Resolves sys source name canonical
      → In canonical s.in_progress
      → Back s (close_cycle name s)
  unfolding close_cycle
  close_cycle-Returns name canonical s h i r again =
      if_rule (Back s) (is_some s.cycle) _ _ (λ _. Returns-same sys source s s h refl refl refl)
        (λ _. record {
          traced = record {
            stack = h.stack;
            cyclic = λ chain e. record {
              names = s.in_progress_names;
              paths = s.in_progress;
              name = name;
              canonical = canonical;
              splits = cc;
              enclosing = h.stack;
              imported = i;
              resolves = r;
              again = again;
            };
          };
          same_paths = refl;
          same_names = refl;
        })

  visit_resolved-Returns :
      (visit : Visit) (depth : ℕ) (name canonical : Bytes) (s : ResolverState)
      → IsBalanced sys source visit
      → IsTraced sys source s
      → Imports sys source name (last? s.in_progress)
      → Resolves sys source name canonical
      → Back s (visit_resolved sys visit depth name canonical s)
  unfolding visit_resolved exceed visit_too_deep
  visit_resolved-Returns visit depth name canonical s b h i r =
      let same = λ (t : ResolverState). Returns-same sys source s t h in
      let marked = record s { visited = set_insert canonical s.visited } in
      let marks = same marked refl refl refl in
      if_rule (Back s) (contains s.in_progress canonical) _ _
        (λ e. close_cycle-Returns name canonical s h i r (contains_iff s.in_progress canonical e))
        (λ _.
          if_rule (Back s) (contains s.visited canonical) _ _ (λ _. same s refl refl refl)
            (λ _.
              if_rule (Back s) (leb import_max_count (length s.records)) _ _
                (λ _. same _ refl refl refl)
                (λ _.
                  if_rule (Back s) (leb import_max_depth depth) _ _ (λ _. same _ refl refl refl)
                    (λ _.
                      Returns-trans sys source s marked _ marks
                        (visit_file-Returns visit name canonical marked b marks.traced i r)))))

  visit_unresolved-Returns :
      (name : Bytes) (s : ResolverState)
      → IsTraced sys source s
      → Back s (visit_unresolved sys name s)
  unfolding visit_unresolved exceed
  visit_unresolved-Returns name s h =
      let same = λ (t : ResolverState). Returns-same sys source s t h in
      if_rule (Back s) (contains s.unresolved_seen name) _ _ (λ _. same s refl refl refl)
        (λ _.
          if_rule (Back s) (leb import_max_count (length s.records)) _ _
            (λ _. same _ refl refl refl) (λ _. same _ refl refl refl))

  visit_with-IsBalanced :
      (visit : Visit) (depth : ℕ)
      → IsBalanced sys source visit
      → IsBalanced sys source (visit_with sys visit depth)
  visit_with-IsBalanced visit depth b name s h i =
      visit_with-cases sys (Back s) visit depth name s
        (λ path e.
          visit_resolved-Returns visit depth name (canonical_of sys path) s b h i
            (record { path = path; found = e; is_canonical = refl }))
        (visit_unresolved-Returns name s h)

  dfs_visit_import-IsBalanced :
      (fuel depth : ℕ) → IsBalanced sys source (dfs_visit_import sys fuel depth)
  dfs_visit_import-IsBalanced =
      dfs_visit_import-rule sys (IsBalanced sys source)
        (λ name s h i. Returns-same sys source s s h refl refl refl) visit_with-IsBalanced

-- A reported cycle is one: its names lead from the source through files each of which is read,
-- is UTF-8 and holds a literal import of the next name, and the last name resolves to a file that
-- is already on that chain.
pub resolve_imports-IsCycle :
    (sys : System) (source : Bytes) (chain : List Bytes)
    → (resolve_imports sys source).cycle ≡ some chain
    → IsCycle sys source chain
unfolding resolve_imports walk_imports
resolve_imports-IsCycle sys source chain h =
    let scan = import_scan source in
    let traced : IsTraced sys source (source_state scan.scan_complete) = record {
      stack = start;
      cyclic = λ c e. cc;
    } in
    let walked =
      foldl-Returns sys source (dfs_visit_import sys import_max_depth 0) scan.refs
        (source_state scan.scan_complete)
        (dfs_visit_import-IsBalanced sys source import_max_depth 0) traced
        (λ child m. by_source m) in
    walked.traced.cyclic chain h
