-- ===== src/SbplImports/Closure.antt =====
-- What it means that the imports of a file are complete, and the invariant of a walk that has not
-- failed.
pub mod Fails
pub mod Expand
pub mod Follows
use policy_witness.Base.{
  ok, err, Result, ℕ, zero, suc, ◌+◌, ◌≤◌, true, false, Bool, ◌||◌, List, [], ◌∷◌, ◌++◌, foldl, ◌≡◌,
  refl, sym, ap, subst, ◌∙◌, ◌⊎◌, inl, inr, arith, Bytes, Option, none, some, is_some, or_else, In,
  In-append, In-set_insert, any, any-append, any-sort_by, if_rule, leb, length, set_insert,
  bytes_order, bytes_eq, bytes_eq_iff, Bool-cases, Result-cases, Option-cases,
}
use policy_witness.Base.Utf8.{is_utf8}
use policy_witness.SbplLex.{import_scan}
use policy_witness.SbplImports.{
  System, ImportRecord, Metadata, ResolverState, fail, push_record, exceed, import_problem,
  contains, pop, build_import_record, record_of_read, read_regular_file, resolve_import_path,
  import_max_count, import_max_depth,
}
use policy_witness.SbplImports.Walk.{
  not_utf8, deep_record, Visit, visit_unresolved, close_cycle, visit_too_deep, note_scan, expand,
  blame_last, visit_content, note_error, visit_file, visit_resolved, visit_with, dfs_visit_import,
  source_state, walk_imports, record_cmp, resolve_imports, canonical_of,
}
use policy_witness.SbplImports.Accounts.{has_error, has_problem, resolve_imports-failure}
use policy_witness.SbplImports.Fuel.{visit_with-cases}
use policy_witness.SbplImports.Stack.{pop-push, contains_iff}
use policy_witness.SbplImports.Unique.{is_at}

abbrev pub Failed : ResolverState → Type 0
Failed s = is_some s.failure ≡ true

pub or_else_some : {A : Type 0} (o : Option A) (a : A) → is_some (or_else o a) ≡ true
or_else_some none a = refl
or_else_some (some b) a = refl

-- The file is in `V`, holds literal imports alone, and each of them resolves to a file of which the
-- same holds, in finitely many steps.
pub data Complete (sys : System) (V : Bytes → Type 0) : Bytes → Type 0 where
  complete :
      {file content : Bytes} {metadata : Metadata}
      → V file
      → read_regular_file sys file ≡ ok (content, metadata)
      → is_utf8 content ≡ true
      → (import_scan content).scan_complete ≡ true
      → (found : (name : Bytes)
          → In name (import_scan content).refs
          → (path : Bytes) × (resolve_import_path sys name ≡ some path))
      → ((name : Bytes) (i : In name (import_scan content).refs)
          → Complete sys V (canonical_of sys (found name i).0))
      → Complete sys V file

pub Complete-map :
    (sys : System) (V W : Bytes → Type 0) (file : Bytes)
    → ((c : Bytes) → V c → W c)
    → Complete sys V file
    → Complete sys W file
Complete-map sys V W file g (complete v r u l found below) =
    complete (g file v) r u l found
      (λ name i. Complete-map sys V W (canonical_of sys (found name i).0) g (below name i))

-- The name resolves to such a file.
abbrev pub Leads : System → (Bytes → Type 0) → Bytes → Type 0
Leads sys V name =
    (path : Bytes) × ((resolve_import_path sys name ≡ some path)
      × Complete sys V (canonical_of sys path))

module _ (sys : System) where
  abbrev pub Visited : ResolverState → Bytes → Type 0
  Visited s c = In c s.visited

  abbrev pub Covered : Bytes → ResolverState → Type 0
  Covered name s = Leads sys (Visited s) name

  -- A state without a failure: each file that was visited has its record, and it is complete
  -- unless it is being expanded.
  pub record Inv (s : ResolverState) : Type 0 where
    pub no_cycle : s.cycle ≡ none
    pub all_found : s.unresolved_seen ≡ []
    pub recorded : (c : Bytes) → In c s.visited → any (is_at (sys.display c)) s.records ≡ true
    pub closed : (c : Bytes) → In c s.visited → In c s.in_progress ⊎ Complete sys (Visited s) c

  abbrev pub Grows : ResolverState → ResolverState → Type 0
  Grows s t = (c : Bytes) → In c s.visited → In c t.visited

  Covered-Grows : (name : Bytes) (s t : ResolverState) → Grows s t → Covered name s → Covered name t
  Covered-Grows name s t g c =
      (c.0, (c.1.0, Complete-map sys (Visited s) (Visited t) (canonical_of sys c.0) g c.1.1))

  abbrev pub Post : Bytes → ResolverState → ResolverState → Type 0
  Post name s t =
      Failed t ⊎ (Inv t × (Covered name t × ((t.in_progress ≡ s.in_progress) × Grows s t)))

  abbrev pub Spec : Visit → Type 0
  Spec visit =
      (name : Bytes) (s : ResolverState)
      → (Failed s → Failed (visit name s)) × (Inv s → Post name s (visit name s))

  pub foldl-Failed :
      (visit : Visit) (refs : List Bytes) (s : ResolverState)
      → Spec visit
      → Failed s
      → Failed (foldl (λ t child. visit child t) s refs)
  foldl-Failed visit [] s spec h = h
  foldl-Failed visit (name ∷ refs) s spec h =
      foldl-Failed visit refs (visit name s) spec ((spec name s).0 h)

  -- After the visits of all names, each of them is covered.
  abbrev pub Walked : List Bytes → ResolverState → ResolverState → Type 0
  Walked refs s t =
      Failed t
      ⊎ (Inv t
          × (((name : Bytes) → In name refs → Covered name t)
              × ((t.in_progress ≡ s.in_progress) × Grows s t)))

  pub foldl-Walked :
      (visit : Visit) (refs : List Bytes) (s : ResolverState)
      → Spec visit
      → Inv s
      → Walked refs s (foldl (λ t child. visit child t) s refs)
  foldl-Walked visit [] s spec inv = inr (inv, ((λ name i. absurd i), (refl, λ c i. i)))
  foldl-Walked visit (name ∷ refs) s spec inv =
      let end = foldl (λ t child. visit child t) (visit name s) refs in
      elim ((spec name s).1 inv) [
        | inl f ↦ inl (foldl-Failed visit refs (visit name s) spec f)
        | inr (next, (covered, (same, grows))) ↦
            elim (foldl-Walked visit refs (visit name s) spec next) [
              | inl f ↦ inl f
              | inr (last, (rest, (same2, grows2))) ↦ inr (
                last,
                (
                  (λ other i. elim i [
                    | inl e ↦
                        subst (λ n. Covered n end) (sym e)
                          (Covered-Grows name (visit name s) end grows2 covered)
                    | inr j ↦ rest other j
                  ]),
                  (same2 ∙ same, λ c i. grows2 c (grows c i)),
                ),
              )
            ]
      ]
