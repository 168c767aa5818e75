-- ===== src/Evidence/Verify.antt =====
-- `verify_manifest` of controller/src/evidence.rs.
use policy_witness.Base.{
  ℕ, ◌+◌, ◌≤◌, true, Option, none, some, List, [], ◌∷◌, ◌++◌, length, length-append, All, count_if,
  is_empty_lem, is_some, is_empty, if◌then◌else◌, Bytes, bytes_eq, bytes_eq_iff, Result, ok, err,
  ◌≡◌, refl, sym, ap, ◌↔◌, ok_injective, Bool-cases, arith, inl, inr,
}
use policy_witness.Evidence.{
  EvidenceEntry, EvidenceManifest, VerifyMismatch, EvidenceSystem, compare_digest, verify_entry,
  verify_declared, verify_entries, verify_manifest,
}

module _ (sys : EvidenceSystem) (app_root : Bytes) where
  -- The file of an entry is there and has the digest.
  abbrev pub HasDigest : EvidenceEntry → Bytes → Type 0
  HasDigest entry expected =
      let abs = sys.path_join app_root entry.rel_path in
      (sys.exists abs ≡ true) × (sys.sha256_of abs ≡ ok expected)

  abbrev pub MatchesDeclared : EvidenceEntry → Option Bytes → Type 0
  MatchesDeclared entry none = Unit
  MatchesDeclared entry (some expected) = HasDigest entry expected

  abbrev pub IsIntact : EvidenceEntry → Type 0
  IsIntact entry = MatchesDeclared entry entry.sha256

  compare_digest_iff :
      (entry : EvidenceEntry) (expected : Bytes) (r : Result Bytes)
      → ((compare_digest sys entry expected r ≡ []) ↔ (r ≡ ok expected))
        × (length (compare_digest sys entry expected r) ≤ 1)
  unfolding compare_digest
  compare_digest_iff entry expected (err e) = (((λ h. cc), (λ h. cc)), omega arith)
  compare_digest_iff entry expected (ok actual) = elim (Bool-cases (bytes_eq expected actual)) [
    | inl t ↦
        rw t (((λ h. ap ok (sym ((bytes_eq_iff expected actual).0 t))), (λ h. refl)), omega arith)
    | inr f ↦ rw f (
      ((λ h. cc), (λ h. let same = (bytes_eq_iff expected actual).1 (sym (ok_injective h)) in cc)),
      omega arith,
    )
  ]

  verify_entry_iff :
      (entry : EvidenceEntry) (expected : Bytes)
      → ((verify_entry sys app_root entry expected ≡ []) ↔ HasDigest entry expected)
        × (length (verify_entry sys app_root entry expected) ≤ 1)
  unfolding verify_entry
  verify_entry_iff entry expected =
      let abs = sys.path_join app_root entry.rel_path in
      let digest = compare_digest_iff entry expected (sys.sha256_of abs) in
      elim (Bool-cases (sys.exists abs)) [
        | inr f ↦ rw f (((λ h. cc), (λ h. cc (h.0))), omega arith)
        | inl t ↦ rw t (((λ h. (refl, digest.0.0 h)), (λ h. digest.0.1 h.1)), digest.1)
      ]

  -- What the loop has of the entries.
  abbrev Tallies : List EvidenceEntry → ℕ × List VerifyMismatch → Type 0
  Tallies entries run =
      ((run.1 ≡ []) ↔ All IsIntact entries)
      × (run.0 ≡ count_if (λ e. is_some e.sha256) entries)
      × (length run.1 ≤ run.0)

  append_empty_iff : (xs ys : List VerifyMismatch) → (xs ++ ys ≡ []) ↔ ((xs ≡ []) × (ys ≡ []))
  append_empty_iff [] ys = ((λ h. (refl, h)), (λ h. h.1))
  append_empty_iff (x ∷ xs) ys = ((λ h. cc), (λ h. cc (h.0)))

  verify_entries-Tallies :
      (entries : List EvidenceEntry) → Tallies entries (verify_entries sys app_root entries)
  unfolding verify_entries count_if
  verify_entries-Tallies [] = (((λ h. tt), (λ h. refl)), refl, omega arith)
  verify_entries-Tallies (e ∷ rest) =
      declared e.sha256 (verify_entries sys app_root rest) (verify_entries-Tallies rest)
    where
      declared :
          (o : Option Bytes) (later : ℕ × List VerifyMismatch)
          → Tallies rest later
          → (((verify_declared sys app_root e o later).1 ≡ [])
              ↔ (MatchesDeclared e o × All IsIntact rest))
            × ((verify_declared sys app_root e o later).0
                ≡ (if is_some o then 1 else 0) + count_if (λ e. is_some e.sha256) rest)
            × (length (verify_declared sys app_root e o later).1
                ≤ (verify_declared sys app_root e o later).0)
      declared none later h = (((λ k. (tt, h.0.0 k)), (λ k. h.0.1 k.1)), omega (arith, h.1), h.2)
      declared (some expected) later h =
          let entry = verify_entry_iff e expected in
          let parts = append_empty_iff (verify_entry sys app_root e expected) later.1 in
          (
            (
              (λ k. (entry.0.0 (parts.0 k).0, h.0.0 (parts.0 k).1)),
              (λ k. parts.1 (entry.0.1 k.0, h.0.1 k.1)),
            ),
            omega (arith, h.1),
            omega
                (arith, h.2, entry.1, length-append (verify_entry sys app_root e expected) later.1),
          )

-- A manifest verifies exactly when each of its entries that declares a digest has its file under
-- the root, with that digest; the report counts those entries, and has at most one mismatch for
-- each.
pub verify_manifest-IsIntact :
    (sys : EvidenceSystem) (manifest : EvidenceManifest) (app_root manifest_path : Bytes)
    → (let report = verify_manifest sys manifest app_root manifest_path in
        ((report.ok ≡ true) ↔ All (IsIntact sys app_root) manifest.entries)
        × (report.checked ≡ count_if (λ e. is_some e.sha256) manifest.entries)
        × (length report.mismatches ≤ report.checked))
unfolding verify_manifest
verify_manifest-IsIntact sys manifest app_root manifest_path =
    let tallies = verify_entries-Tallies sys app_root manifest.entries in
    (
      (
        (λ h. tallies.0.0 (is_empty_lem (verify_entries sys app_root manifest.entries).1 h)),
        (λ h. ap is_empty (tallies.0.1 h)),
      ),
      tallies.1,
      tallies.2,
    )
