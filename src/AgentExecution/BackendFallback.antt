-- ===== src/AgentExecution/BackendFallback.antt =====
-- src/domains/agent-execution/backend-fallback.ts. Amounts of money are numbers with fractions, whose
-- sum is JavaScript's: `read_amount` is what a finite number that is not negative is, and `add` is `+`.
-- Counts of tokens are natural numbers; sums stay exact up to 2 ^ 53. Failures are told by their codes.
pub mod Ledgers
use agent_pool.Prelude.{
  ℕ, ◌+◌, ltb, leb, ◌==◌, Bool, true, false, ◌&&◌, ◌||◌, not, List, [], ◌∷◌, ◌++◌, map, Option,
  none, some, Text, codes, text_eq, length, if◌then◌else◌, ◌>>=◌, ◌>>◌, require,
}
use agent_pool.Js.{Value, Values, Fields, items, keys, own}
use agent_pool.ModelRouting.ApprovedModels.{is_approved_id}

abbrev pub max_backends_per_attempt : ℕ
max_backends_per_attempt = 3

pub data BackendOutcome : Type 0 where
  succeeded backend_failed : BackendOutcome

pub data FallbackFailure : Type 0 where
  fallback_attempt_mismatch fallback_ledger_sealed fallback_model_unapproved : FallbackFailure
  fallback_chain_exhausted fallback_outcome_invalid fallback_cost_invalid : FallbackFailure

-- `amount` and `currency` are both there, or both null.
pub record Money (Amount : Type 0) : Type 0 where
  pub amount : Amount
  pub currency : Text

pub record ConsumedCost (Amount : Type 0) : Type 0 where
  pub input_tokens : ℕ
  pub output_tokens : ℕ
  pub money : Option (Money Amount)

pub record BackendConsumption (Amount : Type 0) : Type 0 where
  pub sequence : ℕ
  pub model : Text
  pub outcome : BackendOutcome
  pub cost : ConsumedCost Amount
  pub evidence : List Text

pub record Ledger (Amount : Type 0) : Type 0 where
  pub attempt_id : Text
  pub node_id : Text
  pub role : Text
  pub max_backends : ℕ
  pub consumptions : List (BackendConsumption Amount)
  pub sealed : Bool

pub record Input : Type 0 where
  pub attempt_id : Text
  pub model : Text
  pub outcome : Text
  pub cost : Value
  pub evidence : Value

-- The loop's sum so far: whether two currencies were seen, and the money in the first.
pub record Sum (Amount : Type 0) : Type 0 where
  pub input : ℕ
  pub output : ℕ
  pub money : Option (Money Amount)
  pub mixed : Bool

abbrev limit_or : Option ℕ → ℕ
limit_or none = max_backends_per_attempt
limit_or (some n) = n

-- `none` is `FALLBACK_CHAIN_LIMIT`.
unfoldable pub create_ledger :
    {Amount : Type 0} → Text → Text → Text → Option ℕ → Option (Ledger Amount)
create_ledger attempt node role max =
    if ltb (limit_or max) 1 || ltb max_backends_per_attempt (limit_or max)
    then none
    else some (record {
      attempt_id = attempt;
      node_id = node;
      role = role;
      max_backends = limit_or max;
      consumptions = [];
      sealed = false;
    })

abbrev pub outcome_of : Text → Option BackendOutcome
outcome_of s =
    if text_eq s (codes "succeeded")
    then some succeeded
    else if text_eq s (codes "failed")
    then some backend_failed
    else none

abbrev pub is_success : BackendOutcome → Bool
is_success succeeded = true
is_success backend_failed = false

abbrev prepend_text : Value → Option (List Text) → Option (List Text)
prepend_text (Value.string s) (some ss) = some (s ∷ ss)
prepend_text _ _ = none

abbrev texts_of : List Value → Option (List Text)
texts_of [] = some []
texts_of (v ∷ vs) = prepend_text v (texts_of vs)

unfoldable pub evidence_of : Value → Option (List Text)
unfolding items
evidence_of (Value.array vs) = texts_of (items vs)
evidence_of _ = none

-- `Number.isInteger(value) && value >= 0`.
abbrev tokens_of : Value → Option ℕ
tokens_of (Value.number n) = some n
tokens_of _ = none

unfoldable pub can_fallback : {Amount : Type 0} → Ledger Amount → Bool
can_fallback l = not l.sealed && ltb (length l.consumptions) l.max_backends

module _ {Amount : Type 0} (read_amount : Value → Option Amount) where
  -- The amount and the currency, of which neither is null or both are.
  unfoldable pub money_of : Value → Value → Option (Option (Money Amount))
  money_of Value.null Value.null = some none
  money_of Value.null _ = none
  money_of v (Value.string c) = elim (read_amount v) [
    | none ↦ none
    | some a ↦ some (some (record { amount = a; currency = c }))
  ]
  money_of v _ = none

  unfoldable pub cost_fields : Fields → Option (ConsumedCost Amount)
  unfolding keys own money_of
  cost_fields fs = do
    require (length (keys fs) == 4)
    input ← tokens_of (own fs (codes "input_tokens"))
    output ← tokens_of (own fs (codes "output_tokens"))
    money ← money_of (own fs (codes "amount")) (own fs (codes "currency"))
    some (record { input_tokens = input; output_tokens = output; money = money })

  -- `none` is `FALLBACK_COST_INVALID`.
  unfoldable pub validate_cost : Value → Option (ConsumedCost Amount)
  unfolding cost_fields
  validate_cost (Value.object p fs) = cost_fields fs
  validate_cost _ = none

  -- The consumption is appended, and a success seals the ledger.
  unfoldable pub append_consumption :
      Ledger Amount → Text → BackendOutcome → ConsumedCost Amount → List Text → Ledger Amount
  append_consumption l model outcome cost evidence = record l {
    consumptions =
        l.consumptions
        ++ record {
          sequence = length l.consumptions + 1;
          model = model;
          outcome = outcome;
          cost = cost;
          evidence = evidence;
        }
          ∷ [];
    sealed = is_success outcome;
  }

  unfoldable pub record_checked :
      Ledger Amount → Input → BackendOutcome → Ledger Amount × Option FallbackFailure
  unfolding validate_cost evidence_of append_consumption
  record_checked l input outcome = elim (validate_cost input.cost) [
    | none ↦ (l, some fallback_cost_invalid)
    | some cost ↦ elim (evidence_of input.evidence) [
      | none ↦ (l, some fallback_cost_invalid)
      | some evidence ↦ (append_consumption l input.model outcome cost evidence, none)
    ]
  ]

  -- The checks once the ledger is known to be open.
  unfoldable pub record_unsealed : Ledger Amount → Input → Ledger Amount × Option FallbackFailure
  unfolding record_checked text_eq
  record_unsealed l input =
      if not (is_approved_id input.model)
      then (l, some fallback_model_unapproved)
      else if leb l.max_backends (length l.consumptions)
      then (l, some fallback_chain_exhausted)
      else elim (outcome_of input.outcome) [
        | none ↦ (l, some fallback_outcome_invalid)
        | some outcome ↦ record_checked l input outcome
      ]

  -- The ledger, and `none` or a failure. A sealed ledger takes nothing, so a failed backend finds it
  -- open and leaves it so.
  unfoldable pub record_consumption : Ledger Amount → Input → Ledger Amount × Option FallbackFailure
  unfolding record_unsealed
  record_consumption l input =
      if not (text_eq input.attempt_id l.attempt_id)
      then (l, some fallback_attempt_mismatch)
      else if l.sealed
      then (l, some fallback_ledger_sealed)
      else record_unsealed l input

module _ {Amount : Type 0} (add : Amount → Amount → Amount) where
  -- The money of one consumption: skipped, added, or in another currency.
  unfoldable pub add_money : Sum Amount → Option (Money Amount) → Sum Amount
  add_money s none = s
  add_money s (some m) = elim s.money [
    | none ↦ record s { money = some m }
    | some t ↦ if not (text_eq m.currency t.currency) then record s { mixed = true } else record s {
      money = some (record { amount = add t.amount m.amount; currency = m.currency });
    }
  ]

  unfoldable pub sum_from : Sum Amount → List (BackendConsumption Amount) → Sum Amount
  unfolding add_money
  sum_from s [] = s
  sum_from s (x ∷ xs) =
      sum_from
        (add_money
          (record s {
            input = s.input + x.cost.input_tokens;
            output = s.output + x.cost.output_tokens;
          })
          x.cost.money)
        xs

  unfoldable pub sum_cost : List (BackendConsumption Amount) → ConsumedCost Amount
  unfolding sum_from
  sum_cost xs =
      let s = sum_from (record { input = 0; output = 0; money = none; mixed = false }) xs in
      record {
        input_tokens = s.input;
        output_tokens = s.output;
        money = if s.mixed then none else s.money;
      }
