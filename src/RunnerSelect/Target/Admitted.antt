-- ===== src/RunnerSelect/Target/Admitted.antt =====
-- Which runners `resolve_runner_target_with_registry` of controller/src/runner_select.rs admits.
use policy_witness.Base.{
  true, Option, none, some, List, [], ◌∷◌, any, All, In, Bytes, bytes_eq, bytes_eq_iff, ok, ◌≡◌,
  refl, subst, ◌↔◌, ◌⊎◌, inl, inr, Bool-cases, arith, sym, ◌∙◌, sort, any-sort_by, bytes_cmp, false,
  bytes_order,
}
use policy_witness.RunnerManager.{RunnerEntitlements}
use policy_witness.RunnerManager.Kinds.{is_true, granted_of, entitlements_from_json}
use policy_witness.Json.{Value, null, boolean, number, string, array, object, Fields, end, field}
use policy_witness.RunnerSelect.Target.{
  TargetSystem, check_granted, check_worker, enforce_required_entitlements,
}

-- Nothing is required, or the worker's read-back has no error and grants all that is.
abbrev pub Grants : List Bytes → Option RunnerEntitlements → Type 0
Grants required worker =
    (required ≡ [])
    ⊎ ((w : RunnerEntitlements) × ((worker ≡ some w)
          × ((w.error ≡ none) × All (λ key. In key w.granted) required)))

any_key_iff :
    (key : Bytes) (keys : List Bytes) → (any (λ k. bytes_eq k key) keys ≡ true) ↔ In key keys
unfolding any
any_key_iff key [] = ((λ h. cc), (λ h. elim h [ ]))
any_key_iff key (k ∷ keys) = ground (arith, any_key_iff key keys, bytes_eq_iff k key)

-- The dictionary has the key with the boolean `true`.
abbrev pub HoldsTrue : Bytes → Fields → Type 0
HoldsTrue key end = ⊥
HoldsTrue key (field k v rest) = ((k ≡ key) × (v ≡ boolean true)) ⊎ HoldsTrue key rest

is_true_iff : (v : Value) → (is_true v ≡ true) ↔ (v ≡ boolean true)
is_true_iff (boolean true) = ((λ h. refl), (λ h. refl))
is_true_iff (boolean false) = ((λ h. cc), (λ h. cc))
is_true_iff null = ((λ h. cc), (λ h. cc))
is_true_iff (number n) = ((λ h. cc), (λ h. cc))
is_true_iff (string t) = ((λ h. cc), (λ h. cc))
is_true_iff (array items) = ((λ h. cc), (λ h. cc))
is_true_iff (object fields) = ((λ h. cc), (λ h. cc))

granted_of-HoldsTrue :
    (key : Bytes) (fields : Fields) → In key (granted_of fields) ↔ HoldsTrue key fields
unfolding granted_of
granted_of-HoldsTrue key end = ((λ h. h), (λ h. h))
granted_of-HoldsTrue key (field k v rest) =
    let later = granted_of-HoldsTrue key rest in
    elim (Bool-cases (is_true v)) [
      | inl t ↦
          let held = (is_true_iff v).0 t in
          rw t (
            (λ h. elim h [ inl e ↦ inl (sym e, held) | inr i ↦ inr (later.0 i) ]),
            (λ h. elim h [ inl p ↦ inl (sym p.0) | inr i ↦ inr (later.1 i) ]),
          )
      | inr f ↦ rw f (
        (λ h. inr (later.0 h)),
        (λ h. elim h [ inl p ↦ absurd (let t = (is_true_iff v).1 p.1 in cc) | inr i ↦ later.1 i ]),
      )
    ]

entitlements_from_json-granted :
    (key : Bytes) (fields : Fields)
    → In key (entitlements_from_json (object fields)).granted ↔ HoldsTrue key fields
unfolding entitlements_from_json
entitlements_from_json-granted key fields =
    let granted = granted_of fields in
    let same = any-sort_by bytes_cmp (λ k. bytes_eq k key) granted in
    let sorted = any_key_iff key (sort granted) in
    let plain = any_key_iff key granted in
    let held = granted_of-HoldsTrue key fields in
    ((λ h. held.0 (plain.0 (sym same ∙ sorted.1 h))), (λ h. sorted.0 (same ∙ plain.1 (held.1 h))))

module _ (sys : TargetSystem) where
  check_granted_iff :
      (subject : Bytes) (w : RunnerEntitlements) (required : List Bytes)
      → (check_granted sys subject w required ≡ ok tt) ↔ All (λ key. In key w.granted) required
  unfolding check_granted
  check_granted_iff subject w [] = ((λ h. tt), (λ h. refl))
  check_granted_iff subject w (key ∷ required) =
      let one = any_key_iff key w.granted in
      let rest = check_granted_iff subject w required in
      elim (Bool-cases (any (λ k. bytes_eq k key) w.granted)) [
        | inl t ↦ rw t ((λ h. (one.0 t, rest.0 h)), (λ h. rest.1 h.1))
        | inr f ↦ rw f ((λ h. cc), (λ h. let t = one.1 h.0 in cc))
      ]

  check_worker_iff :
      (subject : Bytes) (required : List Bytes) (w : RunnerEntitlements) (error : Option Bytes)
      → (check_worker sys subject required w error ≡ ok tt)
        ↔ ((error ≡ none) × All (λ key. In key w.granted) required)
  unfolding check_worker
  check_worker_iff subject required w none =
      let keys = check_granted_iff subject w required in
      ((λ h. (refl, keys.0 h)), (λ h. keys.1 h.1))
  check_worker_iff subject required w (some e) = ((λ h. cc), (λ h. cc (h.0)))

  pub enforce_required-Grants :
      (required : List Bytes) (worker : Option RunnerEntitlements) (subject : Bytes)
      → (enforce_required_entitlements sys required worker subject ≡ ok tt) ↔ Grants required worker
  unfolding enforce_required_entitlements
  enforce_required-Grants [] worker subject = ((λ h. inl refl), (λ h. refl))
  enforce_required-Grants (key ∷ keys) none subject =
      ((λ h. cc), (λ h. elim h [ inl e ↦ cc | inr (w, g) ↦ cc (g.0) ]))
  enforce_required-Grants (key ∷ keys) (some w) subject =
      let checked = check_worker_iff subject (key ∷ keys) w w.error in
      (
        (λ h. inr (w, (refl, checked.0 h))),
        (λ h. elim h [
          | inl e ↦ cc
          | inr (v, g) ↦
              let same : v ≡ w = cc (g.0) in
              checked.1 (
                subst (λ x. (x.error ≡ none) × All (λ key. In key x.granted) (key ∷ keys)) same g.1)
        ]),
      )

  -- The gate lets a runner through exactly when nothing is required of it, or its worker was read
  -- back without an error and is granted every entitlement that is required. What a dictionary
  -- grants are the keys that it holds as the boolean `true`.
  pub enforce_required_entitlements-Grants :
      (required : List Bytes) (worker : Option RunnerEntitlements) (subject key : Bytes)
      (fields : Fields)
      → ((enforce_required_entitlements sys required worker subject ≡ ok tt)
          ↔ Grants required worker)
        × (In key (entitlements_from_json (object fields)).granted ↔ HoldsTrue key fields)
  enforce_required_entitlements-Grants required worker subject key fields =
      (enforce_required-Grants required worker subject, entitlements_from_json-granted key fields)
