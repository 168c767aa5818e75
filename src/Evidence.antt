-- ===== src/Evidence.antt =====
-- controller/src/evidence.rs: the manifest of the binaries that the app ships. The file system and
-- serde's derived reader are a parameter (`EvidenceSystem`).
pub mod Entries
pub mod Verify
mod Tests
use policy_witness.Base.{
  ℕ, zero, suc, Bool, true, false, not, Option, none, some, List, [], ◌∷◌, ◌++◌, ◌==◌,
  if◌then◌else◌, is_empty, Bytes, codes, bytes_eq, Result, ok, err, map_err, ◌>>=◌, decimal,
}
use policy_witness.Json.{Value}

abbrev pub evidence_schema_version : ℕ
evidence_schema_version = 1

pub record EvidenceEntry : Type 0 where
  pub id : Bytes
  pub kind : Bytes
  pub bundle_id : Option Bytes
  pub rel_path : Bytes
  pub sha256 : Option Bytes
  pub lc_uuid : Option Bytes
  pub entitlements : Option Value
  pub entitlements_error : Option Bytes

pub record EvidenceManifest : Type 0 where
  pub schema_version : ℕ
  pub entries : List EvidenceEntry
  pub notes : Option (List Bytes)

pub record VerifyMismatch : Type 0 where
  pub id : Bytes
  pub rel_path : Bytes
  pub expected_sha256 : Option Bytes
  pub actual_sha256 : Option Bytes
  pub error : Option Bytes

pub record VerifyReport : Type 0 where
  pub ok : Bool
  pub checked : ℕ
  pub mismatches : List VerifyMismatch
  pub manifest_path : Bytes
  pub schema_version : ℕ
  pub notes : Option (List Bytes)

-- `sha256_of` is what `sha256_hex` finds: the digest of the bytes that the file holds, or why they
-- could not be read.
pub record EvidenceSystem : Type 0 where
  pub read_to_string : Bytes → Result Bytes
  pub from_str : Bytes → Result EvidenceManifest
  pub exists : Bytes → Bool
  pub sha256_of : Bytes → Result Bytes
  pub path_join : Bytes → Bytes → Bytes
  pub display : Bytes → Bytes
  pub debug : Bytes → Bytes

unfoldable pub require_schema : Bytes → EvidenceManifest → Result EvidenceManifest
unfolding decimal
require_schema shown manifest =
    if manifest.schema_version == evidence_schema_version
    then ok manifest
    else err (
        codes "unsupported evidence manifest schema_version "
        ++ (decimal manifest.schema_version
            ++ (codes " (expected "
                ++ (decimal evidence_schema_version ++ (codes ") in " ++ shown)))))

module _ (sys : EvidenceSystem) where
  unfoldable pub load_manifest : Bytes → Result EvidenceManifest
  unfolding require_schema
  load_manifest path = do
    text ←
        map_err (λ e. codes "failed to read manifest " ++ (sys.display path ++ (codes ": " ++ e)))
          (sys.read_to_string path)
    manifest ←
        map_err (λ e. codes "failed to parse manifest " ++ (sys.display path ++ (codes ": " ++ e)))
          (sys.from_str text)
    require_schema (sys.display path) manifest

  abbrev pub mismatch : EvidenceEntry → Option Bytes → Option Bytes → VerifyMismatch
  mismatch entry actual error = record {
    id = entry.id;
    rel_path = entry.rel_path;
    expected_sha256 = entry.sha256;
    actual_sha256 = actual;
    error = error;
  }

  -- The file's digest against the one that the entry declares.
  unfoldable pub compare_digest : EvidenceEntry → Bytes → Result Bytes → List VerifyMismatch
  unfolding bytes_eq
  compare_digest entry expected (err e) = mismatch entry none (some e) ∷ []
  compare_digest entry expected (ok actual) =
      if bytes_eq expected actual then [] else mismatch entry (some actual) none ∷ []

  -- One turn of the loop of `verify_manifest`, for an entry that declares a digest.
  unfoldable pub verify_entry : Bytes → EvidenceEntry → Bytes → List VerifyMismatch
  unfolding compare_digest
  verify_entry app_root entry expected =
      let abs = sys.path_join app_root entry.rel_path in
      if not (sys.exists abs)
      then mismatch entry none (some (codes "missing file")) ∷ []
      else compare_digest entry expected (sys.sha256_of abs)

  unfoldable pub verify_declared :
      Bytes → EvidenceEntry → Option Bytes → ℕ × List VerifyMismatch → ℕ × List VerifyMismatch
  unfolding verify_entry
  verify_declared app_root entry none later = later
  verify_declared app_root entry (some expected) later =
      (suc later.0, verify_entry app_root entry expected ++ later.1)

  -- The loop, with the number of entries that it checks.
  unfoldable pub verify_entries : Bytes → List EvidenceEntry → ℕ × List VerifyMismatch
  unfolding verify_declared
  verify_entries app_root [] = (0, [])
  verify_entries app_root (entry ∷ rest) =
      verify_declared app_root entry entry.sha256 (verify_entries app_root rest)

  unfoldable pub verify_manifest : EvidenceManifest → Bytes → Bytes → VerifyReport
  unfolding verify_entries
  verify_manifest manifest app_root manifest_path =
      let run = verify_entries app_root manifest.entries in
      record {
        ok = is_empty run.1;
        checked = run.0;
        mismatches = run.1;
        manifest_path = sys.display manifest_path;
        schema_version = manifest.schema_version;
        notes = manifest.notes;
      }

-- `filter(|entry| entry.rel_path == rel_path)`.
unfoldable pub entries_at : Bytes → List EvidenceEntry → List EvidenceEntry
unfolding bytes_eq
entries_at rel_path [] = []
entries_at rel_path (entry ∷ rest) =
    let later = entries_at rel_path rest in
    if bytes_eq entry.rel_path rel_path then entry ∷ later else later

-- The entries at the path, as the two calls of `next` see them.
unfoldable pub only_typed :
    (Bytes → Bytes) → Bytes → Bytes → List EvidenceEntry → Result EvidenceEntry
unfolding bytes_eq
only_typed debug rel_path kind [] = err (codes "evidence manifest has no entry at " ++ rel_path)
only_typed debug rel_path kind (entry ∷ _ ∷ _) =
    err (codes "evidence manifest has more than one entry at " ++ rel_path)
only_typed debug rel_path kind (entry ∷ []) =
    if bytes_eq entry.kind kind
    then ok entry
    else err (
        codes "evidence manifest entry at "
        ++ (rel_path
            ++ (codes " has kind "
                ++ (debug entry.kind ++ (codes " (expected " ++ (debug kind ++ codes ")"))))))

unfoldable pub unique_typed_entry :
    (Bytes → Bytes) → EvidenceManifest → Bytes → Bytes → Result EvidenceEntry
unfolding entries_at only_typed
unique_typed_entry debug manifest rel_path kind =
    only_typed debug rel_path kind (entries_at rel_path manifest.entries)

unfoldable pub manifest_path_from_app_root : (Bytes → Bytes → Bytes) → Bytes → Bytes
manifest_path_from_app_root path_join app_root =
    path_join
      (path_join (path_join (path_join app_root (codes "Contents")) (codes "Resources"))
        (codes "Evidence"))
      (codes "manifest.json")
