-- ===== src/AgentExecution/BackendFallback/Ledgers.antt =====
-- src/domains/agent-execution/backend-fallback.ts: what a ledger keeps to, and that it counts all that
-- was spent.
use agent_pool.Prelude.{
  ℕ, ◌+◌, ◌≤◌, ◌≡◌, ◌⊎◌, inl, inr, refl, sym, subst, leb, Bool, true, false, List, [], ◌∷◌, ◌++◌,
  length, length-append, Option, none, some, Text, text_eq, Bool-cases, Option-cases, arith,
}
use agent_pool.Js.{Value}
use agent_pool.ModelRouting.ApprovedModels.{is_approved_id}
use agent_pool.AgentExecution.BackendFallback.{
  max_backends_per_attempt, BackendOutcome, FallbackFailure, Money, ConsumedCost,
  BackendConsumption, Ledger, Input, Sum, outcome_of, is_success, validate_cost, evidence_of,
  append_consumption, record_checked, record_unsealed, fallback_ledger_sealed, record_consumption,
  add_money, sum_from, sum_cost,
}

-- Consumptions are numbered, of approved models, and all but the last have failed; the last one
-- tells whether the ledger is sealed.
abbrev pub IsChain : {Amount : Type 0} → ℕ → Bool → List (BackendConsumption Amount) → Type 0
IsChain i sealed [] = sealed ≡ false
IsChain i sealed (x ∷ []) =
    (x.sequence ≡ i + 1) × (is_approved_id x.model ≡ true) × (is_success x.outcome ≡ sealed)
IsChain i sealed (x ∷ y ∷ ys) =
    (x.sequence ≡ i + 1)
    × (is_approved_id x.model ≡ true)
    × (is_success x.outcome ≡ false)
    × IsChain (i + 1) sealed (y ∷ ys)

pub record IsLedger (Amount : Type 0) (l : Ledger Amount) : Type 0 where
  pub few : length l.consumptions ≤ l.max_backends
  pub bounded : l.max_backends ≤ max_backends_per_attempt
  pub chain : IsChain 0 l.sealed l.consumptions

module _ {Amount : Type 0} where
  IsChain-snoc :
      (i : ℕ) (xs : List (BackendConsumption Amount)) (x : BackendConsumption Amount)
      → IsChain i false xs
      → x.sequence ≡ i + length xs + 1
      → is_approved_id x.model ≡ true
      → IsChain i (is_success x.outcome) (xs ++ x ∷ [])
  IsChain-snoc i [] x h number known = (omega (arith, number), known, refl)
  IsChain-snoc i (y ∷ []) x h number known = (h.0, h.1, h.2, (omega (arith, number), known, refl))
  IsChain-snoc i (y ∷ z ∷ zs) x h number known =
      (h.0, h.1, h.2, IsChain-snoc (i + 1) (z ∷ zs) x h.3 (omega (arith, number)) known)

  -- The outcomes of a call, as a case rule: nothing changes and a failure is told, or a consumption
  -- is appended.
  module _ (read_amount : Value → Option Amount) (l : Ledger Amount) (input : Input)
      (P : Ledger Amount × Option FallbackFailure → Type 0)
      (refused : (f : FallbackFailure) → P (l, some f))
      (appended : (outcome : BackendOutcome) (cost : ConsumedCost Amount) (evidence : List Text)
        → l.sealed ≡ false
        → is_approved_id input.model ≡ true
        → length l.consumptions ≤ l.max_backends
        → leb l.max_backends (length l.consumptions) ≡ false
        → validate_cost read_amount input.cost ≡ some cost
        → P (append_consumption read_amount l input.model outcome cost evidence, none)) where
    record_checked_cases :
        (outcome : BackendOutcome)
        → l.sealed ≡ false
        → is_approved_id input.model ≡ true
        → leb l.max_backends (length l.consumptions) ≡ false
        → P (record_checked read_amount l input outcome)
    unfolding record_checked
    record_checked_cases outcome open_ known room =
        elim (Option-cases (validate_cost read_amount input.cost)) [
          | inl bad ↦ rw (record_checked, bad) (refused _)
          | inr (cost, priced) ↦ elim (Option-cases (evidence_of input.evidence)) [
            | inl bad ↦ rw (record_checked, priced, bad) (refused _)
            | inr (evidence, told) ↦
                rw (record_checked, priced, told)
                  (appended outcome cost evidence open_ known (ground (arith, room)) room priced)
          ]
        ]

    record_unsealed_cases : l.sealed ≡ false → P (record_unsealed read_amount l input)
    unfolding record_unsealed
    record_unsealed_cases open_ = elim (Bool-cases (is_approved_id input.model)) [
      | inr bad ↦ rw (record_unsealed, bad) (refused _)
      | inl known ↦ elim (Bool-cases (leb l.max_backends (length l.consumptions))) [
        | inl full ↦ rw (record_unsealed, known, full) (refused _)
        | inr room ↦ elim (Option-cases (outcome_of input.outcome)) [
          | inl bad ↦ rw (record_unsealed, known, room, bad) (refused _)
          | inr (outcome, told) ↦
              rw (record_unsealed, known, room, told)
                (record_checked_cases outcome open_ known room)
        ]
      ]
    ]

    pub record_consumption_cases : P (record_consumption read_amount l input)
    unfolding record_consumption
    record_consumption_cases = elim (Bool-cases (text_eq input.attempt_id l.attempt_id)) [
      | inr other ↦ rw (record_consumption, other) (refused _)
      | inl same ↦
          rw (record_consumption, same)
            (ground (arith, refused fallback_ledger_sealed, record_unsealed_cases))
    ]

-- A ledger with at most its limit of consumptions, itself at most three, that are numbered from 1,
-- of approved models, of which all but the last have failed and the last has succeeded exactly if
-- the ledger is sealed, is such a ledger after any input.
pub record_consumption-IsLedger :
    {Amount : Type 0} (read_amount : Value → Option Amount) (l : Ledger Amount) (input : Input)
    → IsLedger Amount l
    → IsLedger Amount (record_consumption read_amount l input).0
unfolding append_consumption
record_consumption-IsLedger {Amount} read_amount l input h =
    record_consumption_cases read_amount l input (λ out. IsLedger Amount out.0) (λ f. h)
      (λ outcome cost evidence open_ known few room priced. record {
        few =
            subst (λ n. n ≤ l.max_backends) (sym (length-append l.consumptions (_ ∷ [])))
              (ground (arith, room));
        bounded = h.bounded;
        chain =
            IsChain-snoc 0 l.consumptions _ (subst (λ b. IsChain 0 b l.consumptions) open_ h.chain)
              (omega arith) known;
      })

add_money-tokens :
    {Amount : Type 0} (add : Amount → Amount → Amount) (s : Sum Amount) (m : Option (Money Amount))
    → ((add_money add s m).input ≡ s.input) × ((add_money add s m).output ≡ s.output)
unfolding add_money
add_money-tokens add s none = (refl, refl)
add_money-tokens add s (some m) = (ground arith, ground arith)

sum_from-append :
    {Amount : Type 0} (add : Amount → Amount → Amount) (xs : List (BackendConsumption Amount))
    (s : Sum Amount) (x : BackendConsumption Amount)
    → ((sum_from add s (xs ++ x ∷ [])).input ≡ (sum_from add s xs).input + x.cost.input_tokens)
      × ((sum_from add s (xs ++ x ∷ [])).output ≡ (sum_from add s xs).output + x.cost.output_tokens)
unfolding sum_from
sum_from-append add [] s x = add_money-tokens add _ x.cost.money
sum_from-append add (y ∷ ys) s x = sum_from-append add ys _ x

-- An input leaves the ledger as it was, or adds its counts of tokens to the totals.
pub record_consumption-tokens :
    {Amount : Type 0} (read_amount : Value → Option Amount) (add : Amount → Amount → Amount)
    (l : Ledger Amount) (input : Input)
    → ((record_consumption read_amount l input).0 ≡ l)
      ⊎ ((cost : ConsumedCost Amount) × (validate_cost read_amount input.cost ≡ some cost)
          × ((sum_cost add (record_consumption read_amount l input).0.consumptions).input_tokens
              ≡ (sum_cost add l.consumptions).input_tokens + cost.input_tokens)
          × ((sum_cost add (record_consumption read_amount l input).0.consumptions).output_tokens
              ≡ (sum_cost add l.consumptions).output_tokens + cost.output_tokens))
unfolding append_consumption sum_cost
record_consumption-tokens {Amount} read_amount add l input =
    record_consumption_cases read_amount l input
      (λ out.
        (out.0 ≡ l)
        ⊎ ((cost : ConsumedCost Amount) × (validate_cost read_amount input.cost ≡ some cost)
            × ((sum_cost add out.0.consumptions).input_tokens
                ≡ (sum_cost add l.consumptions).input_tokens + cost.input_tokens)
            × ((sum_cost add out.0.consumptions).output_tokens
                ≡ (sum_cost add l.consumptions).output_tokens + cost.output_tokens)))
      (λ f. inl refl)
      (λ outcome cost evidence open_ known few room priced.
        let grows = sum_from-append add l.consumptions _ _ in inr (cost, priced, grows.0, grows.1))
