-- ===== src/RunnerSelect/Parse/Reading.antt =====
-- What a selector that is read from a request says of the request.
use policy_witness.Base.{
  true, Option, none, some, List, [], ◌∷◌, any, In, Bytes, codes, bytes_eq, bytes_eq_iff, ok, err,
  Result, went_on, map_ok, map_err, ok_injective, unwrap_or, ◌≡◌, refl, sym, subst, ap, ◌∙◌, ◌⊎◌,
  inl, inr, Bool-cases, Option-cases,
}
use policy_witness.Json.{
  Value, null, boolean, number, string, array, object, Fields, end, field, lookup,
}
use policy_witness.RequestPatch.{new_error}
use policy_witness.RunnerManager.{RunnerKind}
use policy_witness.RunnerManager.Kinds.{parse_kind, kind_text}
use policy_witness.RunnerSelect.{RunnerSelector, selector_problem}
use policy_witness.RunnerSelect.Parse.Held.{
  IsNull, IsText, IsTexts, IsMode, string_field-IsText, entitlements_field-IsTexts, parse_kind_text,
}
use policy_witness.RunnerSelect.Parse.{
  selector_string, required_key, selector_entitlements, checked_selector, runner_keys, prefer,
  parse_runner_mode, mode_field, check_keys, root_selector, nested_selector, with_runner,
  parse_runner_selector_value, refuse_problem,
}

-- The four fields that a selector object may give.
pub record Given : Type 0 where
  pub id : Option Bytes
  pub service : Option Bytes
  pub entitlements : Option (List Bytes)
  pub mode : Option RunnerKind

pub record Gives (id service mode : Bytes) (fields : Fields) (given : Given) : Type 0 where
  pub id_text : IsText (lookup id fields) given.id
  pub service_text : IsText (lookup service fields) given.service
  pub entitlements_texts :
      IsTexts (lookup (codes "required_entitlements") fields) given.entitlements
  pub mode_kind : IsMode (lookup mode fields) given.mode

abbrev pub nothing : Given
nothing = record { id = none; service = none; entitlements = none; mode = none }

-- Every key of the object is one of the four.
abbrev pub KnownKeys : Fields → Type 0
KnownKeys end = Unit
KnownKeys (field key v rest) = In key runner_keys × KnownKeys rest

-- The `runner` field gives nothing, or is an object of known keys that gives its fields.
abbrev pub GivesRunner : Option Value → Given → Type 0
GivesRunner o inner =
    (IsNull o × (inner ≡ nothing))
    ⊎ ((runner : Fields) × ((o ≡ some (object runner))
          × (KnownKeys runner × Gives (codes "id") (codes "service") (codes "mode") runner inner)))

-- The inner value where there is one, and else the outer one.
abbrev pub merged : Given → Given → RunnerSelector
merged outer inner = record {
  runner_id = prefer inner.id outer.id;
  runner_service = prefer inner.service outer.service;
  required_entitlements = unwrap_or inner.entitlements (unwrap_or outer.entitlements []);
  mode = prefer inner.mode outer.mode;
}

known_key : (key : Bytes) (keys : List Bytes) → any (λ k. bytes_eq k key) keys ≡ true → In key keys
unfolding any
known_key key [] h = cc
known_key key (k ∷ keys) h = elim (Bool-cases (bytes_eq k key)) [
  | inl t ↦ inl (sym ((bytes_eq_iff k key).0 t))
  | inr f ↦ inr (known_key key keys (rw f at h))
]

module _ (debug : Bytes → Bytes) where
  parse_runner_mode-text :
      (value name : Bytes) (kind : RunnerKind)
      → parse_runner_mode debug value name ≡ ok kind
      → value ≡ kind_text kind
  unfolding parse_runner_mode
  parse_runner_mode-text value name kind h = elim (Bool-cases (bytes_eq value (codes "machme"))) [
    | inl t ↦ cc (rw t at h)
    | inr f ↦ elim (Option-cases (parse_kind value)) [
      | inl e ↦ cc (rw (f, e) at h)
      | inr (k, e) ↦ parse_kind_text value kind (e ∙ ap some (ok_injective (rw (f, e) at h)))
    ]
  ]

  -- A mode that was read as a text and then parsed.
  mode_field-IsMode :
      (path : List Bytes) (name : Bytes) (o : Option Value) (t : Option Bytes)
      (mode : Option RunnerKind)
      → IsText o t
      → mode_field debug path name t ≡ ok mode
      → IsMode o mode
  unfolding mode_field
  mode_field-IsMode path name o none mode text h = subst (IsMode o) (ok_injective h) text
  mode_field-IsMode path name o (some value) mode text h =
      go (parse_runner_mode debug value name) (λ k e. parse_runner_mode-text value name k e) h
    where
      go :
          (r : Result RunnerKind)
          → ((k : RunnerKind) → r ≡ ok k → value ≡ kind_text k)
          → map_ok some (map_err (λ e. new_error (codes "invalid_value") path e) r) ≡ ok mode
          → IsMode o mode
      go (err e) texts h = cc
      go (ok k) texts h =
          subst (IsMode o) (ok_injective h) (text ∙ ap (λ s. some (string s)) (texts k refl))

  check_keys-KnownKeys : (runner : Fields) → check_keys debug runner ≡ ok tt → KnownKeys runner
  unfolding check_keys
  check_keys-KnownKeys end h = tt
  check_keys-KnownKeys (field key v rest) h =
      elim (Bool-cases (any (λ k. bytes_eq k key) runner_keys)) [
        | inl t ↦ (known_key key runner_keys t, check_keys-KnownKeys rest (rw t at h))
        | inr f ↦ cc (rw f at h)
      ]

  selector_string-IsText :
      (fields : Fields) (key path : Bytes) (t : Option Bytes)
      → selector_string fields key path ≡ ok t
      → IsText (lookup key fields) t
  unfolding selector_string
  selector_string-IsText fields key path t h = string_field-IsText key path (lookup key fields) t h

  selector_entitlements-IsTexts :
      (fields : Fields) (path : Bytes) (t : Option (List Bytes))
      → selector_entitlements fields path ≡ ok t
      → IsTexts (lookup (codes "required_entitlements") fields) t
  unfolding selector_entitlements
  selector_entitlements-IsTexts fields path t h =
      entitlements_field-IsTexts path (lookup required_key fields) t h

  read_fields-Gives :
      (id service mode path name : Bytes) (at : List Bytes) (fields : Fields) (given : Given)
      (text : Option Bytes)
      → selector_string fields id path ≡ ok given.id
      → selector_string fields service path ≡ ok given.service
      → selector_entitlements fields path ≡ ok given.entitlements
      → selector_string fields mode path ≡ ok text
      → mode_field debug at name text ≡ ok given.mode
      → Gives id service mode fields given
  read_fields-Gives id service mode path name at fields given text a b c d e = record {
    id_text = selector_string-IsText fields id path given.id a;
    service_text = selector_string-IsText fields service path given.service b;
    entitlements_texts = selector_entitlements-IsTexts fields path given.entitlements c;
    mode_kind =
        mode_field-IsMode at name (lookup mode fields) text given.mode
          (selector_string-IsText fields mode path text d) e;
  }

  root_selector-Gives :
      (root : Fields) (s : RunnerSelector)
      → root_selector debug root ≡ ok s
      → (outer : Given) × (Gives
            (codes "runner_id")
            (codes "runner_service")
            (codes "runner_mode")
            root
            outer
          × (s ≡ merged outer nothing))
  unfolding root_selector
  root_selector-Gives root s h =
      let id = went_on (selector_string root (codes "runner_id") []) _ h in
      let service = went_on (selector_string root (codes "runner_service") []) _ id.2 in
      let entitlements = went_on (selector_entitlements root []) _ service.2 in
      let text = went_on (selector_string root (codes "runner_mode") []) _ entitlements.2 in
      let mode =
        went_on (mode_field debug (codes "runner_mode" ∷ []) (codes "runner_mode") text.0) _
          text.2 in
      (
        record { id = id.0; service = service.0; entitlements = entitlements.0; mode = mode.0 },
        (
          read_fields-Gives (codes "runner_id") (codes "runner_service") (codes "runner_mode") []
              (codes "runner_mode") (codes "runner_mode" ∷ []) root _ text.0 id.1 service.1
              entitlements.1 text.1 mode.1,
          sym (ok_injective mode.2),
        ),
      )

  checked_selector_parts :
      (selector s : RunnerSelector)
      → checked_selector selector ≡ ok s
      → (selector ≡ s) × (selector_problem s ≡ none)
  unfolding checked_selector
  checked_selector_parts selector s h = go (selector_problem selector) refl h
    where
      go :
          (o : Option Bytes)
          → selector_problem selector ≡ o
          → refuse_problem selector o ≡ ok s
          → (selector ≡ s) × (selector_problem s ≡ none)
      go none e h =
          let same = ok_injective h in (same, subst (λ s. selector_problem s ≡ none) same e)
      go (some problem) e h = cc

  nested_selector-Gives :
      (runner : Fields) (outer : Given) (s : RunnerSelector)
      → nested_selector debug runner (merged outer nothing) ≡ ok s
      → (inner : Given) × (KnownKeys runner
          × (Gives (codes "id") (codes "service") (codes "mode") runner inner
              × ((s ≡ merged outer inner) × (selector_problem s ≡ none))))
  unfolding nested_selector
  nested_selector-Gives runner outer s h =
      let known = went_on (check_keys debug runner) _ h in
      let id = went_on (selector_string runner (codes "id") (codes "runner.")) _ known.2 in
      let service = went_on (selector_string runner (codes "service") (codes "runner.")) _ id.2 in
      let entitlements = went_on (selector_entitlements runner (codes "runner.")) _ service.2 in
      let text =
        went_on (selector_string runner (codes "mode") (codes "runner.")) _ entitlements.2 in
      let mode =
        went_on (mode_field debug (codes "runner" ∷ codes "mode" ∷ []) (codes "runner.mode") text.0)
          _ text.2 in
      let inner : Given = record {
        id = id.0;
        service = service.0;
        entitlements = entitlements.0;
        mode = mode.0;
      } in
      let checked = checked_selector_parts (merged outer inner) s mode.2 in
      (
        inner,
        (
          check_keys-KnownKeys runner known.1,
          (
            read_fields-Gives (codes "id") (codes "service") (codes "mode") (codes "runner.")
                (codes "runner.mode") (codes "runner" ∷ codes "mode" ∷ []) runner inner text.0 id.1
                service.1 entitlements.1 text.1 mode.1,
            (sym checked.0, checked.1),
          ),
        ),
      )

  -- The selector is the merge of what the root and the `runner` object give.
  abbrev pub IsReading : Option Value → Given → RunnerSelector → Type 0
  IsReading o outer s =
      (inner : Given) × (GivesRunner o inner
        × ((s ≡ merged outer inner) × (selector_problem s ≡ none)))

  no_runner :
      (o : Option Value) (outer : Given) (s : RunnerSelector)
      → IsNull o
      → checked_selector (merged outer nothing) ≡ ok s
      → IsReading o outer s
  no_runner o outer s null_at h =
      let checked = checked_selector_parts (merged outer nothing) s h in
      (nothing, (inl (null_at, refl), (sym checked.0, checked.1)))

  with_runner-IsReading :
      (o : Option Value) (outer : Given) (s : RunnerSelector)
      → with_runner debug o (merged outer nothing) ≡ ok s
      → IsReading o outer s
  unfolding with_runner
  with_runner-IsReading none outer s h = no_runner none outer s (inl refl) h
  with_runner-IsReading (some null) outer s h = no_runner (some null) outer s (inr refl) h
  with_runner-IsReading (some (object runner)) outer s h =
      let r = nested_selector-Gives runner outer s h in
      (r.0, (inr (runner, (refl, (r.1.0, r.1.1.0))), r.1.1.1))
  with_runner-IsReading (some (boolean b)) outer s h = cc
  with_runner-IsReading (some (number n)) outer s h = cc
  with_runner-IsReading (some (string t)) outer s h = cc
  with_runner-IsReading (some (array a)) outer s h = cc

  -- A selector that is read says exactly what the request says. The request is an object; each of
  -- the root's fields is absent, null, or of its type, an entitlement list having texts only; the
  -- `runner` field is absent, null, or an object of the four known keys whose fields are of their
  -- types too; and each field of the selector is the one of the `runner` object if that gives it,
  -- and else the root's. The mode and the choice of an external runner do not conflict.
  pub parse_runner_selector_value-IsReading :
      (value : Value) (s : RunnerSelector)
      → parse_runner_selector_value debug value ≡ ok s
      → (root : Fields) × ((value ≡ object root)
          × ((outer : Given) × (Gives
                  (codes "runner_id")
                  (codes "runner_service")
                  (codes "runner_mode")
                  root
                  outer
                × IsReading (lookup (codes "runner") root) outer s)))
  unfolding parse_runner_selector_value
  parse_runner_selector_value-IsReading (object root) s h =
      let first = went_on (root_selector debug root) _ h in
      let outer = root_selector-Gives root first.0 first.1 in
      (
        root,
        (
          refl,
          (
            outer.0,
            (
              outer.1.0,
              with_runner-IsReading (lookup (codes "runner") root) outer.0 s (
                  subst (λ x. with_runner debug (lookup (codes "runner") root) x ≡ ok s) outer.1.1
                    first.2),
            ),
          ),
        ),
      )
  parse_runner_selector_value-IsReading null s h = cc
  parse_runner_selector_value-IsReading (boolean b) s h = cc
  parse_runner_selector_value-IsReading (number n) s h = cc
  parse_runner_selector_value-IsReading (string t) s h = cc
  parse_runner_selector_value-IsReading (array a) s h = cc
