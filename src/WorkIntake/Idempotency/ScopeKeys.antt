-- ===== src/WorkIntake/Idempotency/ScopeKeys.antt =====
-- src/domains/work-intake/idempotency.ts: the scope key tells its parts, and the store keeps what it
-- was given.
use mathlib.Core.List.{append_assoc, append-nil}
use mathlib.Core.Option
use agent_pool.Prelude.{
  ◌≤◌, ◌≡◌, refl, sym, ap, ◌∙◌, List, [], ◌∷◌, ◌++◌, none, some, Text, codes, text_eq, text_eq_refl,
  length, Bool, false, ◌⊎◌, inl, inr, suc, ◌+◌, leb, length-append, select_one, update, insert,
  or_else, Option-cases, Bool-cases, if◌then◌else◌, decimal, decimal-injective, decimal-AllDigits,
  digits_before_colon, arith,
}
use agent_pool.Prelude.Keyed.{find-insert, find-update}
use agent_pool.WorkIntake.Idempotency.{
  Entry, entry_at, with_value, prefixed, idempotency_scope_key, IdempotencyRecord, InMemoryStore,
  get, put,
}

-- Two texts of one length in front of two texts that agree.
append-injective : (p q a b : Text) → length p ≡ length q → p ++ a ≡ q ++ b → (p ≡ q) × (a ≡ b)
append-injective [] [] a b h e = (refl, e)
append-injective [] (v ∷ q) a b h e = absurd (omega arith)
append-injective (u ∷ p) [] a b h e = absurd (omega arith)
append-injective (u ∷ p) (v ∷ q) a b h e =
    let rest = append-injective p q a b (omega arith) (ground (arith, e)) in
    (ground (arith, e, rest.0), rest.1)

-- A part is told with whatever follows it.
prefixed-injective : (p q a b : Text) → prefixed p ++ a ≡ prefixed q ++ b → (p ≡ q) × (a ≡ b)
unfolding prefixed
prefixed-injective p q a b e =
    let split =
      digits_before_colon (decimal (length p)) (decimal (length q)) (p ++ a) (q ++ b)
        (decimal-AllDigits (length p)) (decimal-AllDigits (length q))
        (shape p a ∙ (e ∙ sym (shape q b))) in
    append-injective p q a b (decimal-injective (length p) (length q) split.0) split.1
  where
    shape :
        (s c : Text)
        → decimal (length s) ++ 58 ∷ (s ++ c) ≡ (decimal (length s) ++ (codes ":" ++ s)) ++ c
    shape s c = sym (append_assoc (decimal (length s)) (58 ∷ s) c)

drop_bar : (s t : Text) → codes "|" ++ s ≡ codes "|" ++ t → s ≡ t
drop_bar s t e = ground (arith, e)

-- Two scope keys are equal only if callers, routes and keys are.
pub idempotency_scope_key-injective :
    (c r k c' r' k' : Text)
    → idempotency_scope_key c r k ≡ idempotency_scope_key c' r' k'
    → (c ≡ c') × (r ≡ r') × (k ≡ k')
unfolding idempotency_scope_key
idempotency_scope_key-injective c r k c' r' k' e =
    let first =
      prefixed-injective c c' (codes "|" ++ (prefixed r ++ (codes "|" ++ prefixed k)))
        (codes "|" ++ (prefixed r' ++ (codes "|" ++ prefixed k'))) e in
    let second =
      prefixed-injective r r' (codes "|" ++ prefixed k) (codes "|" ++ prefixed k')
        (ground (arith, first.1)) in
    let third = prefixed-injective k k' [] [] (
      append-nil (prefixed k)
      ∙ (drop_bar (prefixed k) (prefixed k') second.1 ∙ sym (append-nil (prefixed k')))) in
    (first.0, second.0, third.0)

entry-insert :
    (j : Text) (e : Entry) (es : List Entry)
    → select_one (entry_at j) (insert e es)
      ≡ or_else (select_one (entry_at j) es) (if text_eq e.scope_key j then some e else none)
entry-insert j e es = find-insert (λ e. e.scope_key) j e es

entry-update :
    (k j : Text) (r : IdempotencyRecord) (es : List Entry)
    → select_one (entry_at j) (update (entry_at k) (with_value r) es) ≡ (
        if text_eq k j
        then Option.map (with_value r) (select_one (entry_at j) es)
        else select_one (entry_at j) es)
entry-update k j r es = find-update (λ e. e.scope_key) j k (with_value r) (λ e. refl) es

length-update :
    (q : Entry → Bool) (f : Entry → Entry) (es : List Entry) → length (update q f es) ≡ length es
unfolding update
length-update q f [] = refl
length-update q f (e ∷ es) = ap suc (length-update q f es)

length-insert : (e : Entry) (es : List Entry) → length (insert e es) ≡ length es + 1
length-insert e es = length-append es (e ∷ [])

-- A put that the store takes is read back under its key, leaves every other key as it was, and
-- keeps the store within its limit; at the limit a new key is refused.
pub put_cases :
    (store : InMemoryStore) (k : Text) (r : IdempotencyRecord)
    → length store.records ≤ store.limit
    → ((get store k ≡ none) × (length store.records ≡ store.limit) × (put store k r ≡ none))
      ⊎ ((store' : InMemoryStore) × (put store k r ≡ some store')
          × (get store' k ≡ some r)
          × ((j : Text) → text_eq k j ≡ false → get store' j ≡ get store j)
          × (length store'.records ≤ store'.limit)
          × (store'.limit ≡ store.limit))
unfolding get put
put_cases store k r within = elim (Option-cases (select_one (entry_at k) store.records)) [
  | inr (old, e) ↦
      let es = update (entry_at k) (with_value r) store.records in
      inr (
        record store { records = es },
        rw e refl,
        ground (arith, entry-update k k r store.records, e, text_eq_refl k),
        λ j other. ground (arith, entry-update k j r store.records, other),
        omega (arith, length-update (entry_at k) (with_value r) store.records),
        refl,
      )
  | inl fresh ↦ elim (Bool-cases (leb store.limit (length store.records))) [
    | inl full ↦ inl (ground (arith, fresh), ground arith, rw (fresh, full) refl)
    | inr room ↦
        let new : Entry = record { scope_key = k; value = r } in
        inr (
          record store { records = insert new store.records },
          rw (fresh, room) refl,
          ground (arith, entry-insert k new store.records, fresh, text_eq_refl k),
          λ j other. ground (arith, entry-insert j new store.records, other),
          ground (arith, length-insert new store.records),
          refl,
        )
  ]
]
