-- ===== src/SbplImports/Tests.antt =====
-- Runs of the walk over a small file system, and the theorems at it.
use policy_witness.Base.{
  ok, ◌≤◌, true, false, In, any, ◌||◌, none, some, List, [], ◌∷◌, ◌++◌, ◌≡◌, refl, ap, sort,
  bytes_order, ◌+◌, arith, Bytes, codes, bytes_eq, bytes_cmp, starts_with, sort_insert, length,
  count_if, if◌then◌else◌, bytes_eq_iff, Bool, Bool-cases, sym, subst, inl, inr,
}
use policy_witness.Base.Utf8.{is_utf8}
use policy_witness.SbplLex.{import_scan}
use mathlib.Core.List.{Permᴰ}
use policy_witness.SbplImports.{
  System, ImportRecord, ResolvedImports, import_max_count, import_max_depth, resolve_import_path,
  first_existing, import_search_paths,
}
use policy_witness.SbplImports.Walk.{
  dfs_visit_import, resolve_imports, closure_payload, compute_closure_hash, hash_lines,
}
use policy_witness.SbplImports.Accounts.{has_problem}
use policy_witness.SbplImports.Closure.{Leads}
use policy_witness.SbplImports.Closure.Follows.{resolve_imports-Complete}
use policy_witness.SbplImports.Bounds.{resolve_imports-Within}
use policy_witness.SbplImports.Fuel.{dfs_visit_import-more}
use policy_witness.SbplImports.Stack.{IsCycle}
use policy_witness.SbplImports.Cycle.{resolve_imports-IsCycle}
use policy_witness.SbplImports.Unique.{is_at, is_missing}
use policy_witness.SbplImports.Once.{resolve_imports-once}
use policy_witness.SbplImports.Hash.{compute_closure_hash-Permᴰ, closure_payload_injective}

-- `/a` and `/b` import each other.
abbrev content_of : Bytes → Bytes
content_of path =
    if bytes_eq path (codes "/a") then codes "(import \"/b\")" else codes "(import \"/a\")"

abbrev disk : System
disk = record {
  exists = λ path. bytes_eq path (codes "/a") || bytes_eq path (codes "/b");
  canonicalize = λ path. some path;
  open_error = λ path. none;
  fstat = λ path. ok (record { is_file = true; len = 13; modified = none });
  read_to_end = λ path. ok (content_of path);
  sha256_hex = λ bytes. codes "5a";
  display = λ path. path;
  debug = λ text. text;
}

abbrev profile : Bytes
profile = codes "(import \"/a\") (import \"gone.sb\")"

abbrev record_of : Bytes → ImportRecord
record_of path = record {
  name = path;
  resolved_path = some path;
  sha256 = some (codes "5a");
  size_bytes = some 13;
  mtime_unix = none;
  error = none;
}

abbrev missing : ImportRecord
missing = record {
  name = codes "gone.sb";
  resolved_path = none;
  sha256 = none;
  size_bytes = none;
  mtime_unix = none;
  error = some (codes "not found in search path");
}

abbrev chain : List Bytes
chain = codes "/a" ∷ codes "/b" ∷ codes "/a" ∷ []

-- The cycle is named before the missing import, and the missing record sorts first.
resolves_profile : resolve_imports disk profile ≡ record {
  records = missing ∷ record_of (codes "/a") ∷ record_of (codes "/b") ∷ [];
  truncated = false;
  exceeded = none;
  nonliteral_imports = false;
  cycle = some chain;
  failure = some (codes "import cycle: /a -> /b -> /a");
}
unfolding resolve_imports import_scan is_utf8 bytes_cmp bytes_eq starts_with sort_insert
resolves_profile = refl

cycles : (resolve_imports disk profile).cycle ≡ some chain
cycles = ap (λ (r : ResolvedImports). r.cycle) resolves_profile

-- `/a` imports `/b`, which imports nothing.
abbrev tree : System
tree = record disk {
  read_to_end = λ path.
      ok (if bytes_eq path (codes "/a") then codes "(import \"/b\")" else codes "(deny default)");
}

abbrev tree_profile : Bytes
tree_profile = codes "(import \"/a\")"

tree_succeeds : (resolve_imports tree tree_profile).failure ≡ none
unfolding resolve_imports import_scan is_utf8 bytes_cmp bytes_eq starts_with sort_insert
tree_succeeds = refl

resolve_imports-Complete_example :
    let r = resolve_imports tree tree_profile in
    (has_problem r.records r.truncated r.cycle r.nonliteral_imports ≡ false)
    × ((import_scan tree_profile).scan_complete ≡ true)
    × ((name : Bytes)
        → In name (import_scan tree_profile).refs
        → Leads tree (λ file. any (is_at (tree.display file)) r.records ≡ true) name)
resolve_imports-Complete_example = resolve_imports-Complete tree tree_profile tree_succeeds

resolve_imports-Within_example : length (resolve_imports disk profile).records ≤ import_max_count
resolve_imports-Within_example = resolve_imports-Within disk profile

resolve_imports-IsCycle_example : IsCycle disk profile chain
resolve_imports-IsCycle_example = resolve_imports-IsCycle disk profile chain cycles

first_existing-exists :
    (sys : System) (bases : List Bytes) (name path : Bytes)
    → first_existing sys bases name ≡ some path
    → sys.exists path ≡ true
unfolding first_existing
first_existing-exists sys [] name path h = cc
first_existing-exists sys (base ∷ bases) name path h =
    ground (arith, h, first_existing-exists sys bases name path)

resolve_import_path-exists :
    (sys : System) (name path : Bytes)
    → resolve_import_path sys name ≡ some path
    → sys.exists path ≡ true
unfolding resolve_import_path
resolve_import_path-exists sys name path h =
    ground (arith, h, first_existing-exists sys import_search_paths name path)

path_text : (path : Bytes) → disk.exists path ≡ true → is_utf8 path ≡ true
unfolding is_utf8
path_text path h = elim (Bool-cases (bytes_eq path (codes "/a"))) [
  | inl t ↦ subst (λ p. is_utf8 p ≡ true) (sym ((bytes_eq_iff path (codes "/a")).0 t)) refl
  | inr f ↦
      let t = or_right (bytes_eq path (codes "/a")) (bytes_eq path (codes "/b")) f h in
      subst (λ p. is_utf8 p ≡ true) (sym ((bytes_eq_iff path (codes "/b")).0 t)) refl
]
  where
    or_right : (a b : Bool) → a ≡ false → (a || b) ≡ true → b ≡ true
    or_right false b f h = h
    or_right true b f h = cc

resolve_imports-once_example :
    ((path : Bytes) → count_if (is_at path) (resolve_imports disk profile).records ≤ 1)
    × ((name : Bytes) → count_if (is_missing name) (resolve_imports disk profile).records ≤ 1)
resolve_imports-once_example =
    resolve_imports-once disk profile (λ path u. refl)
      (λ name path found. path_text path (resolve_import_path-exists disk name path found))

dfs_visit_import-more_example :
    dfs_visit_import disk (import_max_depth + 5) 0 ≡ dfs_visit_import disk import_max_depth 0
dfs_visit_import-more_example = dfs_visit_import-more disk 5

abbrev forward : List ImportRecord
forward = record_of (codes "/a") ∷ record_of (codes "/b") ∷ []

abbrev backward : List ImportRecord
backward = record_of (codes "/b") ∷ record_of (codes "/a") ∷ []

compute_closure_hash-Permᴰ_example :
    compute_closure_hash disk profile forward ≡ compute_closure_hash disk profile backward
compute_closure_hash-Permᴰ_example = compute_closure_hash-Permᴰ disk profile (Permᴰ.swap refl refl)

same_payload : closure_payload profile forward ≡ closure_payload profile backward
unfolding closure_payload bytes_cmp sort_insert
same_payload = refl

closure_payload_injective_example :
    (profile ≡ profile) × (sort (hash_lines forward) ≡ sort (hash_lines backward))
closure_payload_injective_example =
    closure_payload_injective profile profile forward backward (omega arith) (omega arith)
      same_payload

-- A path that holds the separator can stand for the end of another source.
abbrev odd : ImportRecord
odd = record (record_of []) { resolved_path = some (codes "p 5a" ++ 0x1f ∷ codes "/q") }

payload_collides :
    closure_payload (codes "x") (odd ∷ [])
    ≡ closure_payload (codes "x" ++ 0x1f ∷ codes "p 5a") (record_of (codes "/q") ∷ [])
unfolding closure_payload bytes_cmp sort_insert
payload_collides = refl
