-- ===== src/SbplImports/Closure/Expand.antt =====
-- The expansion of a file leaves it complete, or the walk has failed.
use policy_witness.Base.{
  ok, true, List, [], ◌∷◌, ◌++◌, foldl, ◌≡◌, refl, sym, ap, subst, ◌∙◌, inl, inr, arith, Bytes,
  some, In, In-append, In-set_insert, any, any-append, if_rule, set_insert, bytes_order,
  bytes_eq_iff,
}
use policy_witness.Base.Utf8.{is_utf8}
use policy_witness.SbplLex.{import_scan}
use policy_witness.SbplImports.{
  System, Metadata, ResolverState, push_record, pop, record_of_read, read_regular_file,
  resolve_import_path,
}
use policy_witness.SbplImports.Walk.{Visit, expand, canonical_of}
use policy_witness.SbplImports.Stack.{pop-push}
use policy_witness.SbplImports.Unique.{is_at}
use policy_witness.SbplImports.Closure.{
  or_else_some, Complete, complete, Complete-map, Visited, Covered, Inv, Post, Spec, foldl-Failed,
  foldl-Walked,
}

module _ (sys : System) where
  entered-Inv :
      (name canonical content : Bytes) (metadata : Metadata) (s : ResolverState)
      → Inv sys s
      → Inv sys (record s {
        visited = set_insert canonical s.visited;
        records = s.records ++ (record_of_read sys name canonical (ok (content, metadata))).0 ∷ [];
        in_progress = s.in_progress ++ canonical ∷ [];
        in_progress_names = s.in_progress_names ++ name ∷ [];
      })
  unfolding record_of_read any
  entered-Inv name canonical content metadata s inv =
      let made = (record_of_read sys name canonical (ok (content, metadata))).0 in
      let split = λ (c : Bytes). In-set_insert c canonical s.visited in
      record {
        no_cycle = inv.no_cycle;
        all_found = inv.all_found;
        recorded = λ c i.
            let shown = any-append (is_at (sys.display c)) s.records (made ∷ []) in
            elim ((split c).0 i) [
              | inl e ↦
                  let own =
                    (bytes_eq_iff (sys.display canonical) (sys.display c)).1
                      (ap sys.display (sym e)) in
                  ground (arith, shown, own)
              | inr j ↦ let old = inv.recorded c j in ground (arith, shown, old)
            ];
        closed = λ c i. elim ((split c).0 i) [
          | inl e ↦ inl ((In-append c s.in_progress (canonical ∷ [])).1 (inr (inl e)))
          | inr j ↦ elim (inv.closed c j) [
            | inl k ↦ inl ((In-append c s.in_progress (canonical ∷ [])).1 (inl k))
            | inr whole ↦ inr (
                Complete-map sys _ _ c (λ d k. (In-set_insert d canonical s.visited).1 (inr k))
                  whole)
          ]
        ];
      }

  -- The imports of the file on top of the stack are covered: it leaves the stack as complete.
  leave-Inv :
      (canonical content : Bytes) (metadata : Metadata) (below : List Bytes) (w : ResolverState)
      (names : List Bytes)
      → read_regular_file sys canonical ≡ ok (content, metadata)
      → is_utf8 content ≡ true
      → (import_scan content).scan_complete ≡ true
      → w.in_progress ≡ below ++ canonical ∷ []
      → Inv sys w
      → In canonical w.visited
      → ((name : Bytes) → In name (import_scan content).refs → Covered sys name w)
      → Complete sys (Visited sys w) canonical
        × Inv sys (record w { in_progress = pop w.in_progress; in_progress_names = names })
  leave-Inv canonical content metadata below w names read text literal stack inv met covered =
      let whole : Complete sys (Visited sys w) canonical =
        complete met read text literal (λ name i. ((covered name i).0, (covered name i).1.0))
          (λ name i. (covered name i).1.1) in
      let popped = ap pop stack ∙ pop-push below canonical in
      (
        whole,
        record {
          no_cycle = inv.no_cycle;
          all_found = inv.all_found;
          recorded = inv.recorded;
          closed = λ c i. elim (inv.closed c i) [
            | inl k ↦ elim ((In-append c below (canonical ∷ [])).0 (subst (In c) stack k)) [
              | inl j ↦ inl (subst (In c) (sym popped) j)
              | inr j ↦ elim j [
                | inl e ↦ inr (subst (Complete sys (Visited sys w)) (sym e) whole)
                | inr n ↦ absurd n
              ]
            ]
            | inr done ↦ inr done
          ];
        },
      )

  pub expand-Post :
      (visit : Visit) (name path content : Bytes) (metadata : Metadata) (s : ResolverState)
      → let canonical = canonical_of sys path in
        let made = (record_of_read sys name canonical (ok (content, metadata))).0 in
        resolve_import_path sys name ≡ some path
        → read_regular_file sys canonical ≡ ok (content, metadata)
        → is_utf8 content ≡ true
        → Spec sys visit
        → Inv sys s
        → Post sys name s (
            expand sys visit name canonical content
              (push_record made (record s { visited = set_insert canonical s.visited })))
  unfolding expand
  expand-Post visit name path content metadata s found read text spec inv =
      let canonical = canonical_of sys path in
      let scan = import_scan content in
      let entered = record s {
        visited = set_insert canonical s.visited;
        records = s.records ++ (record_of_read sys name canonical (ok (content, metadata))).0 ∷ [];
        in_progress = s.in_progress ++ canonical ∷ [];
        in_progress_names = s.in_progress_names ++ name ∷ [];
      } in
      let walk = λ (t : ResolverState). foldl (λ u child. visit child u) t scan.refs in
      let leave = λ (w : ResolverState). record w {
        in_progress = pop w.in_progress;
        in_progress_names = pop w.in_progress_names;
      } in
      if_rule (λ t. Post sys name s (leave (walk t))) scan.scan_complete entered _
        (λ literal.
          elim (foldl-Walked sys visit scan.refs entered spec
            (entered-Inv name canonical content metadata s inv)) [
              | inl f ↦ inl f
              | inr (last, (covered, (same, grows))) ↦
                  let met =
                    grows canonical ((In-set_insert canonical canonical s.visited).1 (inl refl)) in
                  let (whole, left) =
                    leave-Inv canonical content metadata s.in_progress (walk entered)
                      (pop (walk entered).in_progress_names) read text literal same last met
                      covered in
                  inr (
                    left,
                    (
                      (path, (found, whole)),
                      (
                        ap pop same ∙ pop-push s.in_progress canonical,
                        λ c i. grows c ((In-set_insert c canonical s.visited).1 (inr i)),
                      ),
                    ),
                  )
            ])
        (λ partial. inl (foldl-Failed sys visit scan.refs _ spec (or_else_some s.failure _)))
