-- ===== src/SbplImports.antt =====
-- controller/src/sbpl_imports.rs: the walk over the literal import closure of a source, and the
-- closure hash. A path is the list of its bytes, and two paths are one when their bytes are; the
-- source compares them by components, which can differ only for a path that `canonicalize` refuses.
pub mod Walk
pub mod Fuel
pub mod Accounts
pub mod Closure
pub mod Bounds
pub mod Unique
pub mod Once
pub mod Hash
pub mod Stack
pub mod Cycle
mod Tests
use policy_witness.Base.{
  Result, ok, err, ℕ, zero, suc, ◌+◌, Bool, true, false, not, ◌&&◌, ◌||◌, Option, none, some,
  is_some, or_else, List, [], ◌∷◌, ◌++◌, foldl, ◌==◌, leb, if◌then◌else◌, Bytes, codes, bytes_eq,
  bytes_cmp, starts_with, length, any, set_insert, bytes_order, sort, sort_by, Ordering, join,
}
use policy_witness.Base.Utf8.{is_utf8}
use policy_witness.SbplLex.{import_scan}

-- What `fstat` tells of an open file: whether it is a regular file, its size, and the whole
-- seconds of its modification time since the epoch, if it has one that is not earlier.
pub record Metadata : Type 0 where
  pub is_file : Bool
  pub len : ℕ
  pub modified : Option ℕ

-- The system that the walk reads, which does not change while it runs, the digest of digest.rs, and
-- two conversions of std. An error is its text.
pub record System : Type 0 where
  pub exists : Bytes → Bool
  pub canonicalize : Bytes → Option Bytes
  pub open_error : Bytes → Option Bytes
  pub fstat : Bytes → Result Metadata
  pub read_to_end : Bytes → Result Bytes
  pub sha256_hex : Bytes → Bytes
  -- `Path::display`
  pub display : Bytes → Bytes
  -- `{:?}` of a string
  pub debug : Bytes → Bytes

abbrev pub import_search_paths : List Bytes
import_search_paths = codes "/System/Library/Sandbox/Profiles" ∷ codes "/usr/share/sandbox" ∷ []

abbrev pub import_max_depth : ℕ
import_max_depth = 8

abbrev pub import_max_count : ℕ
import_max_count = 64

abbrev pub closure_hash_separator : ℕ
closure_hash_separator = 0x1f

pub record ImportRecord : Type 0 where
  pub name : Bytes
  pub resolved_path : Option Bytes
  pub sha256 : Option Bytes
  pub size_bytes : Option ℕ
  pub mtime_unix : Option ℕ
  pub error : Option Bytes

pub record ResolvedImports : Type 0 where
  pub records : List ImportRecord
  pub truncated : Bool
  pub exceeded : Option Bytes
  pub nonliteral_imports : Bool
  pub cycle : Option (List Bytes)
  pub failure : Option Bytes

pub record ResolverState : Type 0 where
  pub records : List ImportRecord
  pub visited : List Bytes
  pub in_progress : List Bytes
  pub in_progress_names : List Bytes
  pub truncated : Bool
  pub exceeded : Option Bytes
  pub nonliteral_imports : Bool
  pub cycle : Option (List Bytes)
  pub failure : Option Bytes
  pub unresolved_seen : List Bytes

-- `contains` of a set or of a vector.
unfoldable pub contains : List Bytes → Bytes → Bool
contains [] a = false
contains (x ∷ xs) a = bytes_eq x a || contains xs a

-- `Vec::pop`, without the item.
unfoldable pub pop {ℓ} : {A : Type ℓ} → List A → List A
pop [] = []
pop (x ∷ []) = []
pop (x ∷ y ∷ ys) = x ∷ pop (y ∷ ys)

-- `state.failure.get_or_insert_with`.
abbrev pub fail : Bytes → ResolverState → ResolverState
fail text s = record s { failure = or_else s.failure text }

abbrev pub push_record : ImportRecord → ResolverState → ResolverState
push_record r s = record s { records = s.records ++ r ∷ [] }

-- The texts `import NAME: WHY` and `import BOUND limit exceeded`.
abbrev pub import_problem : System → Bytes → Bytes → Bytes
import_problem sys name why = codes "import " ++ sys.debug name ++ codes ": " ++ why

abbrev pub limit_problem : Bytes → Bytes
limit_problem bound = codes "import " ++ bound ++ codes " limit exceeded"

unfoldable pub exceed : Bytes → ResolverState → ResolverState
exceed bound s = record s {
  truncated = true;
  exceeded = or_else s.exceeded bound;
  failure = or_else s.failure (limit_problem bound);
}

-- `Path::join` behind a base that does not end in `/`, and a name that does not begin with it.
abbrev pub path_join : Bytes → Bytes → Bytes
path_join base name = base ++ (b'/' ∷ name)

unfoldable pub first_existing : System → List Bytes → Bytes → Option Bytes
first_existing sys [] name = none
first_existing sys (base ∷ bases) name =
    let later = first_existing sys bases name in
    let candidate = path_join base name in if sys.exists candidate then some candidate else later

unfoldable pub resolve_import_path : System → Bytes → Option Bytes
unfolding first_existing
resolve_import_path sys name =
    if starts_with name (codes "/")
    then (if sys.exists name then some name else none)
    else first_existing sys import_search_paths name

-- On the descriptor: a regular file, then its bytes.
unfoldable pub read_opened : System → Bytes → Result Metadata → Result (Bytes × Metadata)
read_opened sys path (err e) = err (codes "fstat failed: " ++ e)
read_opened sys path (ok metadata) =
    if not metadata.is_file then err (codes "not a regular file") else elim (sys.read_to_end path) [
      | ok bytes ↦ ok (bytes, metadata)
      | err e ↦ err (codes "read failed: " ++ e)
    ]

unfoldable pub read_regular_file : System → Bytes → Result (Bytes × Metadata)
unfolding read_opened
read_regular_file sys path = elim (sys.open_error path) [
  | some e ↦ err (codes "read failed: " ++ e)
  | none ↦ read_opened sys path (sys.fstat path)
]

unfoldable pub record_of_read :
    System → Bytes → Bytes → Result (Bytes × Metadata) → ImportRecord × Option Bytes
record_of_read sys name resolved (err e) = (
  record {
    name = name;
    resolved_path = some (sys.display resolved);
    sha256 = none;
    size_bytes = none;
    mtime_unix = none;
    error = some e;
  },
  none,
)
record_of_read sys name resolved (ok (bytes, metadata)) = (
  record {
    name = name;
    resolved_path = some (sys.display resolved);
    sha256 = some (sys.sha256_hex bytes);
    size_bytes = some metadata.len;
    mtime_unix = metadata.modified;
    error = none;
  },
  some bytes,
)

unfoldable pub build_import_record : System → Bytes → Bytes → ImportRecord × Option Bytes
unfolding record_of_read read_regular_file
build_import_record sys name resolved =
    record_of_read sys name resolved (read_regular_file sys resolved)
