-- ===== src/WorkIntake/Canonical.antt =====
-- src/domains/work-intake/payload-hash.ts: `canonicalize` and `hashPayload`. `json` is
-- `JSON.stringify` of a string, a Boolean or a finite number, and `none` of a number that is not
-- finite; `digest` is SHA-256. `none` is an exception.
use agent_pool.Prelude.{
  ℕ, ◌+◌, ltb, List, [], ◌∷◌, ◌++◌, Option, none, some, Text, codes, sort, js_le, if◌then◌else◌,
}
use agent_pool.Js.{Value, Values, Fields}

abbrev pub max_canonical_depth : ℕ
max_canonical_depth = 32

-- `xs.join(',')`.
unfoldable pub join_commas : List Text → Text
join_commas [] = []
join_commas (x ∷ []) = x
join_commas (x ∷ y ∷ ys) = x ++ (codes "," ++ join_commas (y ∷ ys))

pub record Member : Type 0 where
  pub key : Text
  pub content : Text

abbrev prepend {ℓ} : {A : Type ℓ} → Option A → Option (List A) → Option (List A)
prepend none xs = none
prepend (some x) none = none
prepend (some x) (some xs) = some (x ∷ xs)

abbrev add_member : Text → Option Text → Option (List Member) → Option (List Member)
add_member k none ms = none
add_member k (some s) none = none
add_member k (some s) (some ms) = some (record { key = k; content = s } ∷ ms)

module _ (json : Value → Option Text) where
  -- `${JSON.stringify(key)}:${..}`.
  abbrev member_text : Member → Text
  member_text m = elim (json (Value.string m.key)) [
    | none ↦ []
    | some k ↦ k ++ (codes ":" ++ m.content)
  ]

  abbrev member_texts : List Member → List Text
  member_texts [] = []
  member_texts (m ∷ ms) = member_text m ∷ member_texts ms

  abbrev close_array : Option (List Text) → Option Text
  close_array none = none
  close_array (some xs) = some (codes "[" ++ (join_commas xs ++ codes "]"))

  -- The members in the order of their keys.
  abbrev close_object : Option (List Member) → Option Text
  close_object none = none
  close_object (some ms) =
      some (
        codes "{" ++ (join_commas (member_texts (sort (λ a b. js_le a.key b.key) ms)) ++ codes "}"))

  unfoldable mutual
    pub canonical : ℕ → Value → Option Text
    canonical depth Value.undefined = none
    canonical depth Value.null = if ltb max_canonical_depth depth then none else some (codes "null")
    canonical depth (Value.bool b) =
        if ltb max_canonical_depth depth then none else json (Value.bool b)
    canonical depth (Value.number n) =
        if ltb max_canonical_depth depth then none else json (Value.number n)
    canonical depth (Value.other_number n) =
        if ltb max_canonical_depth depth then none else json (Value.other_number n)
    canonical depth (Value.string s) =
        if ltb max_canonical_depth depth then none else json (Value.string s)
    canonical depth (Value.array vs) =
        let inner = canonical_items (depth + 1) vs in
        if ltb max_canonical_depth depth then none else close_array inner
    canonical depth (Value.object p fs) =
        let inner = canonical_fields (depth + 1) fs in
        if ltb max_canonical_depth depth then none else close_object inner

    pub canonical_items : ℕ → Values → Option (List Text)
    canonical_items depth Values.end = some []
    canonical_items depth (Values.item v vs) =
        prepend (canonical depth v) (canonical_items depth vs)

    -- An undefined property is left out.
    pub canonical_fields : ℕ → Fields → Option (List Member)
    canonical_fields depth Fields.stop = some []
    canonical_fields depth (Fields.field k Value.undefined fs) = canonical_fields depth fs
    canonical_fields depth (Fields.field k v fs) =
        add_member k (canonical depth v) (canonical_fields depth fs)

  unfoldable pub canonicalize : Value → Option Text
  unfolding canonical
  canonicalize v = canonical 0 v

  unfoldable pub hash_payload : (Text → Text) → Value → Option Text
  unfolding canonicalize
  hash_payload digest v = elim (canonicalize v) [ none ↦ none | some s ↦ some (digest s) ]
