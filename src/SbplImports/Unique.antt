-- ===== src/SbplImports/Unique.antt =====
-- Each file is recorded once.
use policy_witness.Base.{
  ◌+◌, ◌≤◌, ◌<◌, true, false, Bool, List, [], ◌∷◌, ◌++◌, ◌≡◌, inl, inr, refl, sym, ap, arith, Bytes,
  none, some, In, ◌∙◌, In-set_insert, count_if, count_if-append, if◌then◌else◌, set_insert,
  bytes_order, bytes_eq, bytes_eq_iff, Bool-cases,
}
use policy_witness.Base.Utf8.{is_utf8}
use native.Mathlib.Decide.{dec_lt}
use policy_witness.SbplImports.{System, ImportRecord, ResolverState, contains}
use policy_witness.SbplImports.Walk.{unresolved_record, blame_last}

-- The record was made for the file that is shown as `path`.
abbrev pub is_at : Bytes → ImportRecord → Bool
is_at path r = elim r.resolved_path [ none ↦ false | some shown ↦ bytes_eq shown path ]

-- The record was made for the name, which did not resolve.
abbrev pub is_missing : Bytes → ImportRecord → Bool
is_missing name r = elim r.resolved_path [ none ↦ bytes_eq r.name name | some shown ↦ false ]

contains_of_In : (xs : List Bytes) (a : Bytes) → In a xs → contains xs a ≡ true
unfolding contains
contains_of_In [] a h = absurd h
contains_of_In (x ∷ xs) a h = ground (arith, bytes_eq_iff x a, contains_of_In xs a)

count_if-blame_last :
    (p : ImportRecord → Bool) (why : Bytes) (rs : List ImportRecord)
    → ((r : ImportRecord) → p (record r { error = some why }) ≡ p r)
    → count_if p (blame_last why rs) ≡ count_if p rs
unfolding count_if blame_last
count_if-blame_last p why [] h = refl
count_if-blame_last p why (r ∷ []) h = rw (h r)
count_if-blame_last p why (r ∷ q ∷ rs) h =
    ap (◌+◌ (if p r then 1 else 0)) (count_if-blame_last p why (q ∷ rs) h)

count_if-push :
    (p : ImportRecord → Bool) (rs : List ImportRecord) (r : ImportRecord)
    → count_if p (rs ++ r ∷ []) ≡ count_if p rs + (if p r then 1 else 0)
unfolding count_if
count_if-push p rs r = omega (arith, count_if-append p rs (r ∷ []))

module _ (sys : System)
    (exact : (path : Bytes) → is_utf8 path ≡ true → sys.display path ≡ path) where
  -- At most one record for each path and for each missing name, and each of them is marked as met.
  pub record IsUnique (s : ResolverState) : Type 0 where
    pub once : (path : Bytes) → count_if (is_at path) s.records ≤ 1
    pub met :
        (file : Bytes)
        → is_utf8 file ≡ true
        → 0 < count_if (is_at (sys.display file)) s.records
        → In file s.visited
    pub once_missing : (name : Bytes) → count_if (is_missing name) s.records ≤ 1
    pub met_missing :
        (name : Bytes) → 0 < count_if (is_missing name) s.records → In name s.unresolved_seen

  -- The records and marks are all that matters.
  pub IsUnique-same :
      (s t : ResolverState)
      → IsUnique s
      → t.records ≡ s.records
      → t.visited ≡ s.visited
      → t.unresolved_seen ≡ s.unresolved_seen
      → IsUnique t
  IsUnique-same s t h r v u = record {
    once = λ path. rw r (h.once path);
    met = λ file u k. rw v (h.met file u (rw r at k));
    once_missing = λ name. rw r (h.once_missing name);
    met_missing = λ name k. rw u (h.met_missing name (rw r at k));
  }

  -- A name may be marked as met with no record made for it.
  pub IsUnique-seen :
      (s t : ResolverState) (name : Bytes)
      → IsUnique s
      → t.records ≡ s.records
      → t.visited ≡ s.visited
      → t.unresolved_seen ≡ set_insert name s.unresolved_seen
      → IsUnique t
  IsUnique-seen s t name h r v u = record {
    once = λ path. rw r (h.once path);
    met = λ file u k. rw v (h.met file u (rw r at k));
    once_missing = λ other. rw r (h.once_missing other);
    met_missing = λ other k.
        rw u
          ((In-set_insert other name s.unresolved_seen).1 (inr (h.met_missing other (rw r at k))));
  }

  -- A record for a file that was not met yet.
  pub IsUnique-file :
      (s t : ResolverState) (r : ImportRecord) (canonical : Bytes)
      → IsUnique s
      → is_utf8 canonical ≡ true
      → contains s.visited canonical ≡ false
      → r.resolved_path ≡ some (sys.display canonical)
      → t.records ≡ s.records ++ r ∷ []
      → t.visited ≡ set_insert canonical s.visited
      → t.unresolved_seen ≡ s.unresolved_seen
      → IsUnique t
  IsUnique-file s t r canonical h text fresh shown records visited seen =
      let absent : count_if (is_at (sys.display canonical)) s.records ≤ 0 =
        elim (dec_lt 0 (count_if (is_at (sys.display canonical)) s.records)) [
          | yes k ↦ absurd (cc (contains_of_In s.visited canonical (h.met canonical text k)))
          | no k ↦ omega arith
        ] in
      record {
        once = λ path.
            rw (records, count_if-push (is_at path) s.records r)
              (ground (arith, h.once path, bytes_eq_iff (sys.display canonical) path));
        met = λ file u k.
            let k' : 0
                < count_if (is_at (sys.display file)) s.records
                  + (if is_at (sys.display file) r then 1 else 0) =
              rw (records, count_if-push (is_at (sys.display file)) s.records r) at k in
            rw visited (
              (In-set_insert file canonical s.visited).1
                (elim (Bool-cases (is_at (sys.display file) r)) [
                  | inl here ↦
                      let same : sys.display canonical ≡ sys.display file =
                        ground (arith, bytes_eq_iff (sys.display canonical) (sys.display file)) in
                      inl (sym (exact file u) ∙ sym same ∙ exact canonical text)
                  | inr elsewhere ↦ inr (h.met file u (ground arith))
                ]));
        once_missing = λ name.
            rw (records, count_if-push (is_missing name) s.records r)
              (ground (arith, h.once_missing name));
        met_missing = λ name k.
            let k' : 0
                < count_if (is_missing name) s.records + (if is_missing name r then 1 else 0) =
              rw (records, count_if-push (is_missing name) s.records r) at k in
            rw seen (h.met_missing name (ground arith));
      }

  -- A record for a missing name that was not met yet.
  pub IsUnique-missing :
      (s t : ResolverState) (name : Bytes)
      → IsUnique s
      → contains s.unresolved_seen name ≡ false
      → t.records ≡ s.records ++ unresolved_record name ∷ []
      → t.visited ≡ s.visited
      → t.unresolved_seen ≡ set_insert name s.unresolved_seen
      → IsUnique t
  IsUnique-missing s t name h fresh records visited seen =
      let new = unresolved_record name in
      let absent : count_if (is_missing name) s.records ≤ 0 =
        elim (dec_lt 0 (count_if (is_missing name) s.records)) [
          | yes k ↦ absurd (cc (contains_of_In s.unresolved_seen name (h.met_missing name k)))
          | no k ↦ omega arith
        ] in
      record {
        once = λ path.
            rw (records, count_if-push (is_at path) s.records new) (ground (arith, h.once path));
        met = λ file u k.
            let k' : 0 < count_if (is_at (sys.display file)) s.records + 0 =
              rw (records, count_if-push (is_at (sys.display file)) s.records new) at k in
            rw visited (h.met file u (omega arith));
        once_missing = λ other.
            rw (records, count_if-push (is_missing other) s.records new)
              (ground (arith, h.once_missing other, bytes_eq_iff name other));
        met_missing = λ other k.
            let k' : 0
                < count_if (is_missing other) s.records + (if is_missing other new then 1 else 0) =
              rw (records, count_if-push (is_missing other) s.records new) at k in
            rw seen (
              (In-set_insert other name s.unresolved_seen).1
                (elim (Bool-cases (is_missing other new)) [
                  | inl here ↦ inl (sym ((bytes_eq_iff name other).0 here))
                  | inr elsewhere ↦ inr (h.met_missing other (ground arith))
                ]));
      }

  -- An error put into a record does not change for what it was made.
  pub IsUnique-blamed :
      (s t : ResolverState) (why : Bytes)
      → IsUnique s
      → t.records ≡ blame_last why s.records
      → t.visited ≡ s.visited
      → t.unresolved_seen ≡ s.unresolved_seen
      → IsUnique t
  IsUnique-blamed s t why h records visited seen =
      let at_same = λ (path : Bytes). count_if-blame_last (is_at path) why s.records (λ r. refl) in
      let missing_same =
        λ (name : Bytes). count_if-blame_last (is_missing name) why s.records (λ r. refl) in
      record {
        once = λ path. rw records (rw (at_same path) (h.once path));
        met = λ file u k.
            rw visited (h.met file u (rw (at_same (sys.display file)) at (rw records at k)));
        once_missing = λ name. rw records (rw (missing_same name) (h.once_missing name));
        met_missing =
            λ name k. rw seen (h.met_missing name (rw (missing_same name) at (rw records at k)));
      }
