-- ===== src/Evidence/Tests.antt =====
-- A manifest of two binaries, and the theorems at it.
use policy_witness.Base.{
  ◌≤◌, true, Bytes, [], ◌∷◌, ◌++◌, codes, none, some, ok, err, length, All, count_if, is_some, ◌≡◌,
  ◌↔◌,
}
use policy_witness.Evidence.{
  EvidenceEntry, EvidenceManifest, EvidenceSystem, verify_manifest, unique_typed_entry,
}
use policy_witness.Evidence.Entries.{IsOnly, unique_typed_entry-IsOnly}
use policy_witness.Evidence.Verify.{IsIntact, verify_manifest-IsIntact}

abbrev entry : Bytes → Bytes → EvidenceEntry
entry path kind = record {
  id = codes "e";
  kind = kind;
  bundle_id = none;
  rel_path = path;
  sha256 = some (codes "5a");
  lc_uuid = none;
  entitlements = none;
  entitlements_error = none;
}

abbrev manifest : EvidenceManifest
manifest = record {
  schema_version = 1;
  entries = entry (codes "a") (codes "helper") ∷ entry (codes "b") (codes "service") ∷ [];
  notes = none;
}

abbrev disk : EvidenceSystem
disk = record {
  read_to_string = λ p. err [];
  from_str = λ t. ok manifest;
  exists = λ p. true;
  sha256_of = λ p. ok (codes "5a");
  path_join = λ p q. p ++ q;
  display = λ p. p;
  debug = λ p. p;
}

unique_typed_entry-IsOnly_example :
    (unique_typed_entry disk.debug manifest (codes "b") (codes "service")
      ≡ ok (entry (codes "b") (codes "service")))
    ↔ IsOnly manifest (codes "b") (codes "service") (entry (codes "b") (codes "service"))
unique_typed_entry-IsOnly_example =
    unique_typed_entry-IsOnly disk.debug manifest (codes "b") (codes "service")
      (entry (codes "b") (codes "service"))

verify_manifest-IsIntact_example :
    (let report = verify_manifest disk manifest (codes "/") (codes "/m") in
      ((report.ok ≡ true) ↔ All (IsIntact disk (codes "/")) manifest.entries)
      × (report.checked ≡ count_if (λ e. is_some e.sha256) manifest.entries)
      × (length report.mismatches ≤ report.checked))
verify_manifest-IsIntact_example = verify_manifest-IsIntact disk manifest (codes "/") (codes "/m")
