-- ===== src/SbplImports/Walk.antt =====
-- `dfs_visit_import`, `resolve_imports` and `compute_closure_hash` of controller/src/sbpl_imports.rs.
-- The depth-first walk recurs on fuel: a file at depth 8 is not expanded, so a fuel of 8 at depth 0
-- is enough. One round of the walk takes the recursive call as a function.
use policy_witness.Base.{
  ℕ, zero, suc, ◌+◌, Bool, true, false, not, Option, none, some, is_some, List, [], ◌∷◌, ◌++◌,
  foldl, leb, if◌then◌else◌, Bytes, codes, bytes_cmp, length, set_insert, bytes_order, sort,
  sort_by, Ordering, join,
}
use policy_witness.Base.Utf8.{is_utf8}
use policy_witness.SbplLex.{import_scan}
use policy_witness.SbplImports.{
  System, ImportRecord, ResolvedImports, ResolverState, contains, pop, fail, push_record,
  import_problem, exceed, resolve_import_path, build_import_record, import_max_depth,
  import_max_count, closure_hash_separator,
}

abbrev pub Visit : Type 0
Visit = Bytes → ResolverState → ResolverState

abbrev pub not_utf8 : Bytes
not_utf8 = codes "not valid UTF-8; its imports were not scanned"

abbrev pub nonliteral_form : Bytes
nonliteral_form = codes "a nonliteral (import ...) form could not be followed"

abbrev pub not_found : Bytes
not_found = codes "not found in search path"

abbrev pub too_deep : Bytes
too_deep = codes "depth limit exceeded (8)"

abbrev pub unresolved_record : Bytes → ImportRecord
unresolved_record name = record {
  name = name;
  resolved_path = none;
  sha256 = none;
  size_bytes = none;
  mtime_unix = none;
  error = some not_found;
}

abbrev pub deep_record : Bytes → Bytes → ImportRecord
deep_record name path = record {
  name = name;
  resolved_path = some path;
  sha256 = none;
  size_bytes = none;
  mtime_unix = none;
  error = some too_deep;
}

-- The name does not resolve.
unfoldable pub visit_unresolved : System → Bytes → ResolverState → ResolverState
unfolding contains set_insert exceed
visit_unresolved sys name s =
    if contains s.unresolved_seen name
    then s
    else let seen = record s { unresolved_seen = set_insert name s.unresolved_seen } in
      if leb import_max_count (length s.records)
      then exceed (codes "count") seen
      else push_record (unresolved_record name) (fail (import_problem sys name not_found) seen)

-- The path is being expanded further up: the first such chain is kept.
unfoldable pub close_cycle : Bytes → ResolverState → ResolverState
unfolding join
close_cycle name s =
    let chain = s.in_progress_names ++ name ∷ [] in
    if is_some s.cycle
    then s
    else record (fail (codes "import cycle: " ++ join (codes " -> ") chain) s) {
      cycle = some chain;
    }

-- At the depth limit the file is recorded and not read.
unfoldable pub visit_too_deep : System → Bytes → Bytes → ResolverState → ResolverState
unfolding exceed
visit_too_deep sys name canonical s =
    push_record (deep_record name (sys.display canonical)) (exceed (codes "depth") s)

abbrev pub note_scan : System → Bytes → Bool → ResolverState → ResolverState
note_scan sys name complete s =
    if complete
    then s
    else record (fail (import_problem sys name nonliteral_form) s) { nonliteral_imports = true }

-- The file's own imports, with the file on the stack meanwhile.
unfoldable pub expand : System → Visit → Bytes → Bytes → Bytes → ResolverState → ResolverState
unfolding pop
expand sys visit name canonical content s =
    let scan = import_scan content in
    let entered = record s {
      in_progress = s.in_progress ++ canonical ∷ [];
      in_progress_names = s.in_progress_names ++ name ∷ [];
    } in
    let walked =
      foldl (λ t child. visit child t) (note_scan sys name scan.scan_complete entered) scan.refs in
    record walked {
      in_progress = pop walked.in_progress;
      in_progress_names = pop walked.in_progress_names;
    }

-- `state.records.last_mut()` gets an error.
unfoldable pub blame_last : Bytes → List ImportRecord → List ImportRecord
blame_last why [] = []
blame_last why (r ∷ []) = record r { error = some why } ∷ []
blame_last why (r ∷ q ∷ rs) = r ∷ blame_last why (q ∷ rs)

-- Behind the push of the record: nothing was read, the bytes are no text, or the text is scanned.
unfoldable pub visit_content :
    System → Visit → Bytes → Bytes → Option Bytes → ResolverState → ResolverState
unfolding blame_last expand
visit_content sys visit name canonical none s = s
visit_content sys visit name canonical (some bytes) s =
    if is_utf8 bytes
    then expand sys visit name canonical bytes s
    else record (fail (import_problem sys name not_utf8) s) {
      records = blame_last not_utf8 s.records;
    }

abbrev pub note_error : System → Bytes → Option Bytes → ResolverState → ResolverState
note_error sys name none s = s
note_error sys name (some e) s = fail (import_problem sys name e) s

-- A file that is met for the first time, within the bounds.
unfoldable pub visit_file : System → Visit → Bytes → Bytes → ResolverState → ResolverState
unfolding visit_content build_import_record
visit_file sys visit name canonical s =
    let built = build_import_record sys name canonical in
    visit_content sys visit name canonical built.1
      (push_record built.0 (note_error sys name built.0.error s))

unfoldable pub visit_resolved : System → Visit → ℕ → Bytes → Bytes → ResolverState → ResolverState
unfolding contains close_cycle exceed set_insert visit_too_deep visit_file
visit_resolved sys visit depth name canonical s =
    if contains s.in_progress canonical
    then close_cycle name s
    else if contains s.visited canonical
    then s
    else if leb import_max_count (length s.records)
    then exceed (codes "count") s
    else let marked = record s { visited = set_insert canonical s.visited } in
      if leb import_max_depth depth
      then visit_too_deep sys name canonical marked
      else visit_file sys visit name canonical marked

abbrev pub canonical_of : System → Bytes → Bytes
canonical_of sys path = elim (sys.canonicalize path) [ some canonical ↦ canonical | none ↦ path ]

-- One visit, with the recursive call given.
unfoldable pub visit_with : System → Visit → ℕ → Bytes → ResolverState → ResolverState
unfolding resolve_import_path visit_resolved visit_unresolved
visit_with sys visit depth name s = elim (resolve_import_path sys name) [
  | some path ↦ visit_resolved sys visit depth name (canonical_of sys path) s
  | none ↦ visit_unresolved sys name s
]

unfoldable pub dfs_visit_import : System → ℕ → ℕ → Visit
unfolding visit_with
dfs_visit_import sys zero depth = visit_with sys (λ child t. t) depth
dfs_visit_import sys (suc fuel) depth = visit_with sys (dfs_visit_import sys fuel (depth + 1)) depth

abbrev pub initial_state : ResolverState
initial_state = record {
  records = [];
  visited = [];
  in_progress = [];
  in_progress_names = [];
  truncated = false;
  exceeded = none;
  nonliteral_imports = false;
  cycle = none;
  failure = none;
  unresolved_seen = [];
}

-- The first lines of `resolve_imports`: the scan of the source itself.
abbrev pub source_state : Bool → ResolverState
source_state complete = record initial_state {
  nonliteral_imports = not complete;
  failure = if complete then none else some nonliteral_form;
}

-- `as_deref().unwrap_or("")`.
abbrev pub path_text : Option Bytes → Bytes
path_text none = []
path_text (some path) = path

-- By path, a missing one first, then by name.
unfoldable pub record_cmp : ImportRecord → ImportRecord → Ordering
record_cmp a b =
    let by_name = bytes_cmp a.name b.name in
    elim (bytes_cmp (path_text a.resolved_path) (path_text b.resolved_path)) [
      | Ordering.eq ↦ by_name
      | Ordering.lt ↦ Ordering.lt
      | Ordering.gt ↦ Ordering.gt
    ]

-- The walk over the imports of the source, before the records are sorted.
unfoldable pub walk_imports : System → Bytes → ResolverState
unfolding dfs_visit_import
walk_imports sys source =
    let scan = import_scan source in
    foldl (λ s name. dfs_visit_import sys import_max_depth 0 name s)
      (source_state scan.scan_complete) scan.refs

unfoldable pub resolve_imports : System → Bytes → ResolvedImports
unfolding walk_imports sort_by record_cmp
resolve_imports sys source =
    let state = walk_imports sys source in
    record {
      records = sort_by record_cmp state.records;
      truncated = state.truncated;
      exceeded = state.exceeded;
      nonliteral_imports = state.nonliteral_imports;
      cycle = state.cycle;
      failure = state.failure;
    }

-- The lines `PATH SHA` of the records that carry both.
unfoldable pub hash_line : ImportRecord → List Bytes
hash_line r = elim r.resolved_path [
  | none ↦ []
  | some path ↦ elim r.sha256 [ none ↦ [] | some sha ↦ (path ++ (b' ' ∷ sha)) ∷ [] ]
]

unfoldable pub hash_lines : List ImportRecord → List Bytes
unfolding hash_line
hash_lines [] = []
hash_lines (r ∷ rs) = hash_line r ++ hash_lines rs

-- What is hashed: the source, the separator, and the sorted lines.
unfoldable pub closure_payload : Bytes → List ImportRecord → Bytes
unfolding hash_lines sort_by join
closure_payload source imports =
    source ++ (closure_hash_separator ∷ join (codes "\n") (sort (hash_lines imports)))

unfoldable pub compute_closure_hash : System → Bytes → List ImportRecord → Bytes
unfolding closure_payload
compute_closure_hash sys source imports = sys.sha256_hex (closure_payload source imports)
