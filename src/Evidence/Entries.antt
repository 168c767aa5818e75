-- ===== src/Evidence/Entries.antt =====
-- `unique_typed_entry` of controller/src/evidence.rs.
use policy_witness.Base.{
  true, List, [], ◌∷◌, Bytes, bytes_eq, bytes_eq_iff, count_if, ok, ◌≡◌, refl, sym, subst, ◌↔◌, In,
  inl, inr, arith, Bool-cases, ap, ◌≤◌, ok_injective,
}
use policy_witness.Evidence.{
  EvidenceEntry, EvidenceManifest, entries_at, only_typed, unique_typed_entry,
}

-- The entry is in the manifest at that path, it has the kind, and no other entry is at the path.
abbrev pub IsOnly : EvidenceManifest → Bytes → Bytes → EvidenceEntry → Type 0
IsOnly manifest rel_path kind entry =
    In entry manifest.entries
    × ((entry.rel_path ≡ rel_path)
        × ((entry.kind ≡ kind)
            × (count_if (λ e. bytes_eq e.rel_path rel_path) manifest.entries ≡ 1)))

entries_at-count :
    (rel_path : Bytes) (entries : List EvidenceEntry) (found : EvidenceEntry)
    → (entries_at rel_path entries ≡ [] → count_if (λ e. bytes_eq e.rel_path rel_path) entries ≡ 0)
      × (entries_at rel_path entries ≡ found ∷ []
          → In found entries
            × ((found.rel_path ≡ rel_path)
                × (count_if (λ e. bytes_eq e.rel_path rel_path) entries ≡ 1)))
unfolding entries_at count_if
entries_at-count rel_path [] found = ((λ h. refl), (λ h. cc))
entries_at-count rel_path (e ∷ rest) found = elim (Bool-cases (bytes_eq e.rel_path rel_path)) [
  | inr f ↦
      let ih = entries_at-count rel_path rest found in
      rw f (
        (λ h. omega (arith, ih.0 h)),
        (λ h. let k = ih.1 h in (inr k.0, (k.1.0, omega (arith, k.1.1)))),
      )
  | inl t ↦
      let ih = entries_at-count rel_path rest found in
      rw t (
        (λ h. cc),
        (λ h.
            let same : found ≡ e = cc in
            let none_left : entries_at rel_path rest ≡ [] = cc in
            (
              inl same,
              (
                subst (λ x. x.rel_path ≡ rel_path) (sym same)
                    ((bytes_eq_iff e.rel_path rel_path).0 t),
                omega (arith, ih.0 none_left),
              ),
            )),
      )
]

-- The converse, and that an entry at the path is counted.
count-entries_at :
    (rel_path : Bytes) (entries : List EvidenceEntry) (found : EvidenceEntry)
    → (count_if (λ e. bytes_eq e.rel_path rel_path) entries ≡ 0 → entries_at rel_path entries ≡ [])
      × (In found entries
          → found.rel_path ≡ rel_path
          → 1 ≤ count_if (λ e. bytes_eq e.rel_path rel_path) entries)
unfolding entries_at count_if
count-entries_at rel_path [] found = ((λ h. refl), (λ h k. elim h [ ]))
count-entries_at rel_path (e ∷ rest) found =
    let ih = count-entries_at rel_path rest found in
    elim (Bool-cases (bytes_eq e.rel_path rel_path)) [
      | inl t ↦ rw t ((λ h. absurd (omega arith)), (λ h k. omega arith))
      | inr f ↦ rw f (
        (λ h. ih.0 (omega arith)),
        (λ h k. elim h [
          | inl same ↦
              let at : bytes_eq e.rel_path rel_path ≡ true =
                (bytes_eq_iff e.rel_path rel_path).1 (subst (λ x. x.rel_path ≡ rel_path) same k) in
              cc
          | inr later ↦ omega (arith, ih.1 later k)
        ]),
      )
    ]

only-entries_at :
    (rel_path : Bytes) (entries : List EvidenceEntry) (found : EvidenceEntry)
    → In found entries
    → found.rel_path ≡ rel_path
    → count_if (λ e. bytes_eq e.rel_path rel_path) entries ≡ 1
    → entries_at rel_path entries ≡ found ∷ []
unfolding entries_at count_if
only-entries_at rel_path [] found i k c = elim i [ ]
only-entries_at rel_path (e ∷ rest) found i k c =
    let counted = count-entries_at rel_path rest found in
    elim (Bool-cases (bytes_eq e.rel_path rel_path)) [
      | inr f ↦ elim i [
        | inl same ↦
            let at : bytes_eq e.rel_path rel_path ≡ true =
              (bytes_eq_iff e.rel_path rel_path).1 (subst (λ x. x.rel_path ≡ rel_path) same k) in
            cc
        | inr later ↦ rw f (only-entries_at rel_path rest found later k (omega (arith, rw f at c)))
      ]
      | inl t ↦ elim i [
        | inl same ↦
            let nothing = counted.0 (omega (arith, rw t at c)) in
            rw (t, nothing) (ap (λ x. x ∷ []) (sym same))
        | inr later ↦ absurd (omega (arith, counted.1 later k, rw t at c))
      ]
    ]

only_typed_iff :
    (debug : Bytes → Bytes) (rel_path kind : Bytes) (entries : List EvidenceEntry)
    (found : EvidenceEntry)
    → (only_typed debug rel_path kind entries ≡ ok found)
      ↔ ((entries ≡ found ∷ []) × (found.kind ≡ kind))
unfolding only_typed
only_typed_iff debug rel_path kind [] found = ((λ h. cc), (λ h. cc (h.0)))
only_typed_iff debug rel_path kind (e ∷ d ∷ es) found = ((λ h. cc), (λ h. cc (h.0)))
only_typed_iff debug rel_path kind (e ∷ []) found = elim (Bool-cases (bytes_eq e.kind kind)) [
  | inr f ↦ rw f (
    (λ h. cc),
    (λ h.
        let same : e ≡ found = cc (h.0) in
        let at : bytes_eq e.kind kind ≡ true =
          (bytes_eq_iff e.kind kind).1 (subst (λ x. x.kind ≡ kind) (sym same) h.1) in
        cc),
  )
  | inl t ↦ rw t (
    (λ h.
        let same = ok_injective h in
        (ap (λ x. x ∷ []) same, subst (λ x. x.kind ≡ kind) same ((bytes_eq_iff e.kind kind).0 t))),
    (λ h. let same : e ≡ found = cc (h.0) in ap ok same),
  )
]

-- An entry is selected exactly when it stands in the manifest at the path, has the kind, and no
-- other entry stands at that path.
pub unique_typed_entry-IsOnly :
    (debug : Bytes → Bytes) (manifest : EvidenceManifest) (rel_path kind : Bytes)
    (found : EvidenceEntry)
    → (unique_typed_entry debug manifest rel_path kind ≡ ok found)
      ↔ IsOnly manifest rel_path kind found
unfolding unique_typed_entry
unique_typed_entry-IsOnly debug manifest rel_path kind found =
    let typed = only_typed_iff debug rel_path kind (entries_at rel_path manifest.entries) found in
    (
      (λ h.
          let k = typed.0 h in
          let at = (entries_at-count rel_path manifest.entries found).1 k.0 in
          (at.0, (at.1.0, (k.1, at.1.1)))),
      (λ h. typed.1 (only-entries_at rel_path manifest.entries found h.0 h.1.0 h.1.1.1, h.1.1.0)),
    )
