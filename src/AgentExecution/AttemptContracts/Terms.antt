-- ===== src/AgentExecution/AttemptContracts/Terms.antt =====
-- src/domains/agent-execution/attempt-contract.ts: the terms of a contract, apart from the loops that
-- check them.
use agent_pool.Prelude.{
  ℕ, ◌≡◌, ◌==◌, ◌⊎◌, ◌&&◌, inl, inr, refl, sym, subst, ap, Bool, true, false, not, List, [], ◌∷◌,
  none, Text, codes, text_eq, text_eq_sound, length, Bool-cases, arith,
}
use agent_pool.Js.{Value, Values, Fields, items, own, has_own, keys, mem_text, is_blank}
use agent_pool.AgentExecution.AttemptContracts.{
  is_non_empty_string, is_one_of, check_criteria, validate_criteria, valid_origin, first_unknown,
  first_missing, first_empty, text_of,
}

-- A string with a unit that is no white space.
abbrev pub IsFilled : Value → Type 0
IsFilled v = (s : Text) × (v ≡ Value.string s) × (is_blank s ≡ false)

-- Objects of an id and a text, the ids different from each other and from those seen.
abbrev pub AreCriteria : List Text → List Value → Type 0
AreCriteria seen [] = Unit
AreCriteria seen (v ∷ vs) =
    (p : Bool) × (fs : Fields) × (id : Text) × (v ≡ Value.object p fs)
    × (length (keys fs) ≡ 2)
    × (own fs (codes "id") ≡ Value.string id)
    × (is_blank id ≡ false)
    × IsFilled (own fs (codes "text"))
    × (mem_text id seen ≡ false)
    × AreCriteria (id ∷ seen) vs

abbrev pub HasCriteria : Value → Type 0
HasCriteria v =
    (vs : Values) × (v ≡ Value.array vs) × (items vs ≡ [] → ⊥) × AreCriteria [] (items vs)

abbrev pub IsOrigin : Value → Type 0
IsOrigin v =
    (p : Bool) × (fs : Fields) × (v ≡ Value.object p fs)
    × (length (keys fs) ≡ 2)
    × ((own fs (codes "source") ≡ Value.string (codes "decomposition"))
        ⊎ (own fs (codes "source") ≡ Value.string (codes "direct_task")))
    × IsFilled (own fs (codes "source_id"))

pub is_non_empty_string-IsFilled : (v : Value) → is_non_empty_string v ≡ true → IsFilled v
unfolding is_non_empty_string
is_non_empty_string-IsFilled (Value.string s) h = (s, refl, ground (arith, h))
is_non_empty_string-IsFilled v h = absurd (ground (arith, h))

all_five :
    (a b c d e : Bool)
    → (a && b && c && d && e) ≡ true
    → (a ≡ true) × (b ≡ true) × (c ≡ true) × (d ≡ true) × (e ≡ true)
all_five a b c d e h =
    (ground (arith, h), ground (arith, h), ground (arith, h), ground (arith, h), ground (arith, h))

negated : (b : Bool) → not b ≡ true → b ≡ false
negated b h = ground (arith, h)

equal_numbers : (m n : ℕ) → (m == n) ≡ true → m ≡ n
equal_numbers m n h = ground (arith, h)

check_criteria-AreCriteria :
    (seen : List Text) (vs : List Value) → check_criteria seen vs ≡ true → AreCriteria seen vs
unfolding check_criteria
check_criteria-AreCriteria seen [] h = tt
check_criteria-AreCriteria seen (Value.object p fs ∷ vs) h =
    let (keys_, id_, text_, fresh, rest) = all_five _ _ _ _ _ h in
    let (id, at_id, filled) = is_non_empty_string-IsFilled (own fs (codes "id")) id_ in
    let same : text_of (own fs (codes "id")) ≡ id = ap text_of at_id in
    (
      p,
      fs,
      id,
      refl,
      equal_numbers (length (keys fs)) 2 keys_,
      at_id,
      filled,
      is_non_empty_string-IsFilled (own fs (codes "text")) text_,
      subst (λ t. mem_text t seen ≡ false) same
          (negated (mem_text (text_of (own fs (codes "id"))) seen) fresh),
      subst (λ t. AreCriteria (t ∷ seen) vs) same
          (check_criteria-AreCriteria (text_of (own fs (codes "id")) ∷ seen) vs rest),
    )
check_criteria-AreCriteria seen (v ∷ vs) h = absurd (ground (arith, h))

pub validate_criteria-HasCriteria : (v : Value) → validate_criteria v ≡ none → HasCriteria v
unfolding validate_criteria
validate_criteria-HasCriteria (Value.array vs) h = (
  vs,
  refl,
  λ e. absurd (ground (arith, h, e)),
  check_criteria-AreCriteria [] (items vs) (ground (arith, h)),
)
validate_criteria-HasCriteria v h = absurd (ground (arith, h))

source_sound :
    (v : Value)
    → is_one_of (codes "decomposition" ∷ codes "direct_task" ∷ []) v ≡ true
    → (v ≡ Value.string (codes "decomposition")) ⊎ (v ≡ Value.string (codes "direct_task"))
unfolding mem_text
source_sound (Value.string s) h = elim (Bool-cases (text_eq (codes "decomposition") s)) [
  | inl one ↦ inl (ap Value.string (sym (text_eq_sound (codes "decomposition") s one)))
  | inr other ↦
      inr (ap Value.string (sym (text_eq_sound (codes "direct_task") s (ground (arith, h, other)))))
]
source_sound v h = absurd (ground (arith, h))

pub valid_origin-IsOrigin : (v : Value) → valid_origin v ≡ true → IsOrigin v
unfolding valid_origin
valid_origin-IsOrigin (Value.object p fs) h = (
  p,
  fs,
  refl,
  ground (arith, h),
  source_sound (own fs (codes "source")) (ground (arith, h)),
  is_non_empty_string-IsFilled (own fs (codes "source_id")) (ground (arith, h)),
)
valid_origin-IsOrigin v h = absurd (ground (arith, h))

pub first_unknown-none :
    (allowed ks : List Text) (k : Text)
    → first_unknown allowed ks ≡ none
    → mem_text k ks ≡ true
    → mem_text k allowed ≡ true
unfolding first_unknown mem_text
first_unknown-none allowed [] k e m = absurd (ground (arith, m))
first_unknown-none allowed (x ∷ ks) k e m = elim (Bool-cases (text_eq x k)) [
  | inl same ↦ subst (λ t. mem_text t allowed ≡ true) (text_eq_sound x k same) (ground (arith, e))
  | inr other ↦ first_unknown-none allowed ks k (ground (arith, e)) (ground (arith, m, other))
]

pub first_missing-none :
    (fs : Fields) (ks : List Text) (k : Text)
    → first_missing fs ks ≡ none
    → mem_text k ks ≡ true
    → has_own fs k ≡ true
unfolding first_missing mem_text
first_missing-none fs [] k e m = absurd (ground (arith, m))
first_missing-none fs (x ∷ ks) k e m = elim (Bool-cases (text_eq x k)) [
  | inl same ↦ subst (λ t. has_own fs t ≡ true) (text_eq_sound x k same) (ground (arith, e))
  | inr other ↦ first_missing-none fs ks k (ground (arith, e)) (ground (arith, m, other))
]

pub first_empty-none :
    (fs : Fields) (ks : List Text) (k : Text)
    → first_empty fs ks ≡ none
    → mem_text k ks ≡ true
    → IsFilled (own fs k)
unfolding first_empty mem_text
first_empty-none fs [] k e m = absurd (ground (arith, m))
first_empty-none fs (x ∷ ks) k e m = elim (Bool-cases (text_eq x k)) [
  | inl same ↦
      subst (λ t. IsFilled (own fs t)) (text_eq_sound x k same)
        (is_non_empty_string-IsFilled (own fs x) (ground (arith, e)))
  | inr other ↦ first_empty-none fs ks k (ground (arith, e)) (ground (arith, m, other))
]
