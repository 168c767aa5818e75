-- ===== src/SbplImports/Accounts.antt =====
-- What the walk's `failure` accounts for.
use policy_witness.Base.{
  ℕ, true, Bool, ◌||◌, List, [], ◌∷◌, ◌++◌, ◌≡◌, refl, ◌∙◌, arith, Bytes, Option, none, some,
  is_some, any-append, any-sort_by, any, if_rule, set_insert, bytes_order,
}
use policy_witness.Base.Utf8.{is_utf8}
use policy_witness.SbplLex.{import_scan}
use policy_witness.SbplImports.{
  System, ImportRecord, ResolverState, fail, push_record, exceed, import_problem,
  build_import_record,
}
use policy_witness.SbplImports.Walk.{
  not_utf8, unresolved_record, deep_record, Visit, visit_unresolved, close_cycle, visit_too_deep,
  note_scan, expand, blame_last, visit_content, note_error, visit_file, visit_resolved, visit_with,
  source_state, walk_imports, record_cmp, resolve_imports, canonical_of,
}
use policy_witness.SbplImports.Fuel.{Keeps, foldl-Keeps, walk_imports-Keeps, visit_with-cases}

abbrev pub has_error : ImportRecord → Bool
has_error r = is_some r.error

-- A failed record, a bound that was hit, a cycle, or a form that could not be followed.
abbrev pub has_problem : List ImportRecord → Bool → Option (List Bytes) → Bool → Bool
has_problem records truncated cycle nonliteral =
    any has_error records || (truncated || (is_some cycle || nonliteral))

record Accounts (s : ResolverState) : Type 0 where
  flag : s.truncated ≡ is_some s.exceeded
  told : is_some s.failure ≡ has_problem s.records s.truncated s.cycle s.nonliteral_imports

any-push :
    (rs : List ImportRecord) (r : ImportRecord)
    → any has_error (rs ++ r ∷ []) ≡ (any has_error rs || has_error r)
unfolding any
any-push rs r = any-append has_error rs (r ∷ []) ∙ ground arith

any-blame_last :
    (why : Bytes) (rs : List ImportRecord) (r : ImportRecord)
    → any has_error (blame_last why (rs ++ r ∷ [])) ≡ true
unfolding any blame_last
any-blame_last why [] r = refl
any-blame_last why (q ∷ []) r = ground arith
any-blame_last why (q ∷ p ∷ rs) r = ground (arith, any-blame_last why (p ∷ rs) r)

visit_unresolved-Accounts :
    (sys : System) (name : Bytes) (s : ResolverState)
    → Accounts s
    → Accounts (visit_unresolved sys name s)
unfolding visit_unresolved exceed
visit_unresolved-Accounts sys name s h = ground (arith, any-push s.records (unresolved_record name))

note_scan-Accounts :
    (sys : System) (name : Bytes) (complete : Bool) (s : ResolverState)
    → Accounts s
    → Accounts (note_scan sys name complete s)
note_scan-Accounts sys name complete s h = ground arith

expand-Accounts :
    (sys : System) (visit : Visit) (name canonical content : Bytes) (s : ResolverState)
    → Keeps Accounts visit
    → Accounts s
    → Accounts (expand sys visit name canonical content s)
unfolding expand
expand-Accounts sys visit name canonical content s keep h =
    let scan = import_scan content in
    let entered = record s {
      in_progress = s.in_progress ++ canonical ∷ [];
      in_progress_names = s.in_progress_names ++ name ∷ [];
    } in
    let walked =
      foldl-Keeps Accounts visit scan.refs (note_scan sys name scan.scan_complete entered) keep (
        note_scan-Accounts sys name scan.scan_complete entered
          (record { flag = h.flag; told = h.told })) in
    record { flag = walked.flag; told = walked.told }

abbrev pushed : System → Bytes → ImportRecord → ResolverState → ResolverState
pushed sys name r s = push_record r (note_error sys name r.error s)

pushed-Accounts :
    (sys : System) (name : Bytes) (r : ImportRecord) (s : ResolverState) (e : Option Bytes)
    → r.error ≡ e
    → Accounts s
    → Accounts (push_record r (note_error sys name e s))
pushed-Accounts sys name r s none k h = ground (arith, any-push s.records r)
pushed-Accounts sys name r s (some e) k h = ground (arith, any-push s.records r)

blamed-Accounts :
    (sys : System) (name : Bytes) (r : ImportRecord) (s : ResolverState) (e : Option Bytes)
    → Accounts s
    → Accounts
        (record (fail
          (import_problem sys name not_utf8)
          (push_record r (note_error sys name e s))) {
            records = blame_last not_utf8 ((note_error sys name e s).records ++ r ∷ []);
          })
blamed-Accounts sys name r s none h = ground (arith, any-blame_last not_utf8 s.records r)
blamed-Accounts sys name r s (some e) h = ground (arith, any-blame_last not_utf8 s.records r)

visit_content-Accounts :
    (sys : System) (visit : Visit) (name canonical : Bytes) (content : Option Bytes)
    (r : ImportRecord) (s : ResolverState)
    → Keeps Accounts visit
    → Accounts s
    → Accounts (visit_content sys visit name canonical content (pushed sys name r s))
unfolding visit_content
visit_content-Accounts sys visit name canonical none r s keep h =
    pushed-Accounts sys name r s r.error refl h
visit_content-Accounts sys visit name canonical (some bytes) r s keep h =
    if_rule Accounts (is_utf8 bytes) _ _
      (λ _.
        expand-Accounts sys visit name canonical bytes (pushed sys name r s) keep
          (pushed-Accounts sys name r s r.error refl h))
      (λ _. blamed-Accounts sys name r s r.error h)

visit_file-Accounts :
    (sys : System) (visit : Visit) (name canonical : Bytes) (s : ResolverState)
    → Keeps Accounts visit
    → Accounts s
    → Accounts (visit_file sys visit name canonical s)
unfolding visit_file
visit_file-Accounts sys visit name canonical s keep h =
    let built = build_import_record sys name canonical in
    visit_content-Accounts sys visit name canonical built.1 built.0 s keep h

visit_resolved-Accounts :
    (sys : System) (visit : Visit) (depth : ℕ) (name canonical : Bytes) (s : ResolverState)
    → Keeps Accounts visit
    → Accounts s
    → Accounts (visit_resolved sys visit depth name canonical s)
unfolding visit_resolved close_cycle exceed visit_too_deep
visit_resolved-Accounts sys visit depth name canonical s keep h =
    let marked = record s { visited = set_insert canonical s.visited } in
    let same : Accounts marked = record { flag = h.flag; told = h.told } in
    ground (
      arith,
      any-push s.records (deep_record name (sys.display canonical)),
      visit_file-Accounts sys visit name canonical marked keep same,
    )

visit_with-Accounts :
    (sys : System) (visit : Visit) (depth : ℕ)
    → Keeps Accounts visit
    → Keeps Accounts (visit_with sys visit depth)
visit_with-Accounts sys visit depth keep name s h =
    visit_with-cases sys Accounts visit depth name s
      (λ path _. visit_resolved-Accounts sys visit depth name (canonical_of sys path) s keep h)
      (visit_unresolved-Accounts sys name s h)

source_state-Accounts : (complete : Bool) → Accounts (source_state complete)
unfolding any
source_state-Accounts complete = ground arith

-- The walk reports a failure exactly when the inventory is not clean: some record carries an error,
-- a bound was hit, a cycle was met, or some import form could not be followed. It says that it was
-- truncated exactly when it names a bound.
pub resolve_imports-failure :
    (sys : System) (source : Bytes)
    → let r = resolve_imports sys source in
      (is_some r.failure ≡ has_problem r.records r.truncated r.cycle r.nonliteral_imports)
      × (r.truncated ≡ is_some r.exceeded)
unfolding resolve_imports
resolve_imports-failure sys source =
    let state = walk_imports sys source in
    let h =
      walk_imports-Keeps sys Accounts source (visit_with-Accounts sys)
        (source_state-Accounts (import_scan source).scan_complete) in
    (rw (any-sort_by record_cmp has_error state.records) h.told, h.flag)
