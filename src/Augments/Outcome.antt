-- ===== src/Augments/Outcome.antt =====
-- The four outcomes of `resolve_policy_augments` of controller/src/augments.rs.
use policy_witness.Base.{
  Option, none, some, List, ◌++◌, All, if◌then◌else◌, Bytes, codes, bytes_eq, ok, err, Ends, ◌≡◌,
  refl, sym, subst, ap, ◌∙◌, ◌⊎◌, inl, inr,
}
use policy_witness.Json.{
  Value, null, string, array, nil, items_of, Fields, lookup, remove, insert, lookup-remove,
  lookup-insert,
}
use policy_witness.Augments.{
  PolicyAugmentation, AugmentResolution, not_present, stripped_no_op, applied, bad_request,
  AugmentSystem, Step, Splice, splice, settle, resolve_removed, resolve_policy_augments,
}
use policy_witness.Augments.Spliced.{IsAugmentName, Fragments, joined, IsSplice, Stops, splice-Ends}

module _ (sys : AugmentSystem) (app_root : Bytes) where
  -- The policy after a splice, by its keys.
  abbrev pub Rewrites : Fields → Bytes → Fields → Type 0
  Rewrites policy source after =
      (key : Bytes)
      → lookup key after ≡ (
          if bytes_eq (codes "sbpl_source") key
          then some (string source)
          else if bytes_eq (codes "augments") key
          then none
          else lookup key policy)

  pub record IsApplied (policy : Fields) (a : PolicyAugmentation) (after : Fields) : Type 0 where
    pub listed : lookup (codes "augments") policy ≡ some (array (items_of a.applied))
    pub valid : All IsAugmentName a.applied
    pub source : Bytes
    pub source_text : lookup (codes "sbpl_source") policy ≡ some (string source)
    pub fragments : List Bytes
    pub files : Fragments sys app_root a.applied fragments
    pub rewritten : Rewrites policy (source ++ joined fragments) after
    pub original_sha256 : a.original_sha256 ≡ sys.sha256_hex source
    pub applied_sha256 : a.applied_sha256 ≡ sys.sha256_hex (source ++ joined fragments)

  abbrev pub Stripped : Fields → Fields → Type 0
  Stripped policy after = after ≡ remove (codes "augments") policy

  abbrev pub Outcome : Fields → AugmentResolution → Fields → Type 0
  Outcome policy not_present after = (lookup (codes "augments") policy ≡ none) × (after ≡ policy)
  Outcome policy stripped_no_op after =
      ((lookup (codes "augments") policy ≡ some null)
        ⊎ (lookup (codes "augments") policy ≡ some (array nil)))
      × Stripped policy after
  Outcome policy (applied a) after = IsApplied policy a after
  Outcome policy (bad_request e) after = Stripped policy after

  rewrites :
      (policy : Fields) (source : Bytes)
      → Rewrites policy source
          (insert (codes "sbpl_source") (string source) (remove (codes "augments") policy))
  rewrites policy source key =
      lookup-insert key (codes "sbpl_source") (string source) (remove (codes "augments") policy)
      ∙ ap (λ o. if bytes_eq (codes "sbpl_source") key then some (string source) else o)
          (lookup-remove key (codes "augments") policy)

  kept_source :
      (policy : Fields) (o : Option Value)
      → lookup (codes "sbpl_source") (remove (codes "augments") policy) ≡ o
      → lookup (codes "sbpl_source") policy ≡ o
  unfolding bytes_eq
  kept_source policy o h = sym (lookup-remove (codes "sbpl_source") (codes "augments") policy) ∙ h

  settle-Outcome :
      (policy : Fields) (v : Value) (r : Step Splice)
      → lookup (codes "augments") policy ≡ some v
      → Ends (IsSplice sys app_root v (remove (codes "augments") policy)) (Stops v) r
      → (let done = settle sys (remove (codes "augments") policy) r in Outcome policy done.0 done.1)
  unfolding settle
  settle-Outcome policy v (err not_present) at h = elim h [ ]
  settle-Outcome policy v (err (applied a)) at h = elim h [ ]
  settle-Outcome policy v (err (bad_request e)) at h = refl
  settle-Outcome policy v (err stripped_no_op) at (inl e) = (inl (at ∙ ap some e), refl)
  settle-Outcome policy v (err stripped_no_op) at (inr e) = (inr (at ∙ ap some e), refl)
  settle-Outcome policy v (ok s) at h =
      let applied_source = ap (λ (b : Bytes). s.source ++ b) h.appended in
      record {
        listed = at ∙ ap some h.listed;
        valid = h.valid;
        source = s.source;
        source_text = kept_source policy _ h.source_text;
        fragments = h.fragments;
        files = h.files;
        rewritten =
            subst
              (λ b. Rewrites policy b (
                insert (codes "sbpl_source") (string (s.source ++ s.appended))
                  (remove (codes "augments") policy)))
              applied_source (rewrites policy (s.source ++ s.appended));
        original_sha256 = refl;
        applied_sha256 = ap sys.sha256_hex applied_source;
      }

  resolve_removed-Outcome :
      (path : List Bytes) (policy : Fields) (o : Option Value)
      → lookup (codes "augments") policy ≡ o
      → (let done = resolve_removed sys path app_root o policy in Outcome policy done.0 done.1)
  unfolding resolve_removed
  resolve_removed-Outcome path policy none at = (at, refl)
  resolve_removed-Outcome path policy (some v) at =
      settle-Outcome policy v (splice sys path app_root v (remove (codes "augments") policy)) at
        (splice-Ends sys app_root path v (remove (codes "augments") policy))

  -- The resolution of a policy's augments has one of four outcomes. Without the field nothing is
  -- done. A null or empty list is stripped, and nothing else is changed. A refusal strips the field
  -- too, and leaves the source as it was. Otherwise the list holds valid names only, of ASCII
  -- letters, digits and underscores, each has its file, and the source becomes the source before
  -- it, followed by the fragments in the order of the names, each behind a newline; the field is
  -- gone, every other key is as it was, and the digests are those of the two sources.
  pub resolve_policy_augments-Outcome :
      (path : List Bytes) (policy : Fields)
      → (let done = resolve_policy_augments sys path app_root policy in
          Outcome policy done.0 done.1)
  unfolding resolve_policy_augments
  resolve_policy_augments-Outcome path policy =
      resolve_removed-Outcome path policy (lookup (codes "augments") policy) refl
