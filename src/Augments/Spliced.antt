-- ===== src/Augments/Spliced.antt =====
-- What `resolve_policy_augments` of controller/src/augments.rs does to a policy.
use policy_witness.Base.{
  ℕ, ◌+◌, ◌≤◌, true, Option, none, some, List, [], ◌∷◌, ◌++◌, all, All, Bytes, codes, ok, err,
  ◌>>=◌, ◌≡◌, ◌≢◌, refl, ap, ◌⊎◌, inl, inr, Bool-cases, arith, Ends, Ends-bind, ap₂,
}
use policy_witness.Json.{Value, null, string, array, Items, nil, item, items_of, Fields, lookup}
use policy_witness.Augments.{
  AugmentResolution, not_present, stripped_no_op, applied, bad_request, AugmentSystem, is_name_byte,
  is_valid_augment_name, Step, name_item, name_items, some_names, augment_names, policy_source,
  Splice, check_names, augment_path, read_augment, read_augments, splice,
}

-- An ASCII letter, a digit, or the underscore.
abbrev pub IsNameByte : ℕ → Type 0
IsNameByte c =
    ((b'0' ≤ c) × (c ≤ b'9'))
    ⊎ (((b'A' ≤ c) × (c ≤ b'Z')) ⊎ (((b'a' ≤ c) × (c ≤ b'z')) ⊎ (c ≡ b'_')))

abbrev pub IsAugmentName : Bytes → Type 0
IsAugmentName name = (name ≢ []) × All IsNameByte name

all_name_bytes : (name : Bytes) → all is_name_byte name ≡ true → All IsNameByte name
unfolding all is_name_byte
all_name_bytes [] h = tt
all_name_bytes (c ∷ name) h = elim (Bool-cases (is_name_byte c)) [
  | inl t ↦ (ground arith, all_name_bytes name (rw t at h))
  | inr f ↦ cc (rw f at h)
]

is_valid-IsAugmentName : (name : Bytes) → is_valid_augment_name name ≡ true → IsAugmentName name
unfolding is_valid_augment_name
is_valid-IsAugmentName [] h = cc
is_valid-IsAugmentName (c ∷ name) h = ((λ e. cc), all_name_bytes (c ∷ name) h)

-- An early return other than for an empty list is a refusal.
abbrev pub IsRefusal : AugmentResolution → Type 0
IsRefusal (bad_request e) = Unit
IsRefusal _ = ⊥

abbrev Reads : {A : Type 0} → (A → Type 0) → Step A → Type 0
Reads P = Ends P IsRefusal

name_item-Reads :
    (path : List Bytes) (i : ℕ) (v : Value) → Reads (λ s. v ≡ string s) (name_item path i v)
unfolding name_item
name_item-Reads path i (string s) = refl
name_item-Reads path i _ = tt

name_items-Reads :
    (path : List Bytes) (i : ℕ) (items : Items)
    → Reads (λ names. items ≡ items_of names) (name_items path i items)
unfolding name_items
name_items-Reads path i nil = refl
name_items-Reads path i (item v rest) =
    Ends-bind (λ s. v ≡ string s) _ IsRefusal (name_item path i v) _ (name_item-Reads path i v)
      (λ s e.
        Ends-bind (λ names. rest ≡ items_of names) _ IsRefusal (name_items path (i + 1) rest) _
          (name_items-Reads path (i + 1) rest) (λ names k. ap₂ item e k))

-- The early return for a list that is null or empty.
abbrev pub Stops : Value → AugmentResolution → Type 0
Stops v stripped_no_op = (v ≡ null) ⊎ (v ≡ array nil)
Stops v r = IsRefusal r

augment_names-Ends :
    (path : List Bytes) (v : Value)
    → Ends (λ names. v ≡ array (items_of names)) (Stops v) (augment_names path v)
unfolding augment_names
augment_names-Ends path null = inl refl
augment_names-Ends path (array items) = go (name_items path 0 items) (name_items-Reads path 0 items)
  where
    go :
        (r : Step (List Bytes))
        → Reads (λ names. items ≡ items_of names) r
        → Ends
            (λ names. array items ≡ array (items_of names))
            (Stops (array items))
            (r >>= some_names)
    go (err (bad_request e)) h = tt
    go (err not_present) h = elim h [ ]
    go (err stripped_no_op) h = elim h [ ]
    go (err (applied a)) h = elim h [ ]
    go (ok []) h = inr (ap array h)
    go (ok (n ∷ names)) h = ap array h
augment_names-Ends path _ = tt

policy_source-Reads :
    (path : List Bytes) (o : Option Value)
    → Reads (λ source. o ≡ some (string source)) (policy_source path o)
unfolding policy_source
policy_source-Reads path (some (string s)) = refl
policy_source-Reads path none = tt
policy_source-Reads path (some _) = tt

module _ (sys : AugmentSystem) where
  check_names-Reads :
      (path : List Bytes) (i : ℕ) (names : List Bytes)
      → Reads (λ _. All IsAugmentName names) (check_names sys path i names)
  unfolding check_names
  check_names-Reads path i [] = tt
  check_names-Reads path i (name ∷ names) = elim (Bool-cases (is_valid_augment_name name)) [
    | inr f ↦ rw f tt
    | inl t ↦ rw t (
        both (check_names sys path (i + 1) names) (is_valid-IsAugmentName name t)
          (check_names-Reads path (i + 1) names))
  ]
    where
      both :
          (r : Step (Unit {0}))
          → IsAugmentName name
          → Reads (λ _. All IsAugmentName names) r
          → Reads (λ _. All IsAugmentName (name ∷ names)) r
      both (ok u) h k = (h, k)
      both (err e) h k = k

  -- The fragments that the files of the names hold, in order.
  abbrev pub Fragments : Bytes → List Bytes → List Bytes → Type 0
  Fragments app_root [] [] = Unit
  Fragments app_root (name ∷ names) (contents ∷ rest) =
      (sys.fragment (augment_path sys app_root name) ≡ some contents)
      × Fragments app_root names rest
  Fragments app_root _ _ = ⊥

  read_augment-Reads :
      (path : List Bytes) (i : ℕ) (name : Bytes) (o : Option Bytes)
      → Reads (λ contents. o ≡ some contents) (read_augment sys path i name o)
  unfolding read_augment
  read_augment-Reads path i name none = tt
  read_augment-Reads path i name (some contents) = refl

-- Each fragment behind a newline.
abbrev pub joined : List Bytes → Bytes
joined [] = []
joined (contents ∷ rest) = (b'\n' ∷ contents) ++ joined rest

module _ (sys : AugmentSystem) (app_root : Bytes) where
  abbrev Appended : List Bytes → Bytes → Type 0
  Appended names appended =
      (fragments : List Bytes) × (Fragments sys app_root names fragments
        × (appended ≡ joined fragments))

  read_augments-Reads :
      (path : List Bytes) (i : ℕ) (names : List Bytes)
      → Reads (Appended names) (read_augments sys path app_root i names)
  unfolding read_augments
  read_augments-Reads path i [] = ([], (tt, refl))
  read_augments-Reads path i (name ∷ names) =
      let o = sys.fragment (augment_path sys app_root name) in
      Ends-bind (λ contents. o ≡ some contents) (Appended (name ∷ names)) IsRefusal
        (read_augment sys path i name o) _ (read_augment-Reads sys path i name o)
        (λ contents e.
          Ends-bind (Appended names) (Appended (name ∷ names)) IsRefusal
            (read_augments sys path app_root (i + 1) names) _
            (read_augments-Reads path (i + 1) names)
            (λ later h. (contents ∷ h.0, ((e, h.1.0), ap (λ l. (b'\n' ∷ contents) ++ l) h.1.1))))

  -- What a splice rests on: the listed names, each valid and with its file, and the source.
  pub record IsSplice (v : Value) (policy : Fields) (s : Splice) : Type 0 where
    pub listed : v ≡ array (items_of s.names)
    pub valid : All IsAugmentName s.names
    pub source_text : lookup (codes "sbpl_source") policy ≡ some (string s.source)
    pub fragments : List Bytes
    pub files : Fragments sys app_root s.names fragments
    pub appended : s.appended ≡ joined fragments

  weaken : {A : Type 0} (v : Value) (P : A → Type 0) (r : Step A) → Reads P r → Ends P (Stops v) r
  weaken v P (ok a) h = h
  weaken v P (err (bad_request e)) h = tt
  weaken v P (err not_present) h = elim h [ ]
  weaken v P (err stripped_no_op) h = elim h [ ]
  weaken v P (err (applied a)) h = elim h [ ]

  pub splice-Ends :
      (path : List Bytes) (v : Value) (policy : Fields)
      → Ends (IsSplice v policy) (Stops v) (splice sys path app_root v policy)
  unfolding splice
  splice-Ends path v policy =
      let o = lookup (codes "sbpl_source") policy in
      Ends-bind (λ names. v ≡ array (items_of names)) (IsSplice v policy) (Stops v)
        (augment_names path v) _ (augment_names-Ends path v)
        (λ names e.
          Ends-bind (λ source. o ≡ some (string source)) (IsSplice v policy) (Stops v)
            (policy_source path o) _
            (weaken v _ (policy_source path o) (policy_source-Reads path o))
            (λ source k.
              Ends-bind (λ _. All IsAugmentName names) (IsSplice v policy) (Stops v)
                (check_names sys path 0 names) _
                (weaken v _ (check_names sys path 0 names) (check_names-Reads sys path 0 names))
                (λ u valid.
                  Ends-bind (Appended names) (IsSplice v policy) (Stops v)
                    (read_augments sys path app_root 0 names) _
                    (weaken v _ (read_augments sys path app_root 0 names)
                      (read_augments-Reads path 0 names))
                    (λ appended h. record {
                      listed = e;
                      valid = valid;
                      source_text = k;
                      fragments = h.0;
                      files = h.1.0;
                      appended = h.1.1;
                    }))))
