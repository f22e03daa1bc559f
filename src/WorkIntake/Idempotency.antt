-- ===== src/WorkIntake/Idempotency.antt =====
-- src/domains/work-intake/idempotency.ts: the scope key, the keys that are accepted, and the store in
-- memory. A `Map` is the list of its entries; a key stands in it once.
pub mod ScopeKeys
use agent_pool.Prelude.{
  ℕ, ltb, leb, Bool, true, false, ◌&&◌, not, List, [], ◌∷◌, ◌++◌, Option, none, some, Text, codes,
  text_eq, length, decimal, select_one, update, insert, is_some, if◌then◌else◌,
}
use agent_pool.WorkIntake.Contracts.{DirectTaskAcceptance, intake_limits}

abbrev pub direct_task_route : Text
direct_task_route = codes "POST /tasks"

-- `[\x21-\x7e]*`.
unfoldable pub all_printable : Text → Bool
all_printable [] = true
all_printable (u ∷ s) = leb 0x21 u && leb u 0x7e && all_printable s

unfoldable pub is_valid_idempotency_key : Text → Bool
unfolding all_printable
is_valid_idempotency_key key =
    ltb 0 (length key)
    && leb (length key) intake_limits.max_idempotency_key_length
    && all_printable key

-- `${part.length}:${part}`.
unfoldable pub prefixed : Text → Text
prefixed part = decimal (length part) ++ (codes ":" ++ part)

unfoldable pub idempotency_scope_key : Text → Text → Text → Text
unfolding prefixed
idempotency_scope_key caller_id route key =
    prefixed caller_id ++ (codes "|" ++ (prefixed route ++ (codes "|" ++ prefixed key)))

pub record IdempotencyRecord : Type 0 where
  pub payload_hash : Text
  pub result : DirectTaskAcceptance

pub record Entry : Type 0 where
  pub scope_key : Text
  pub value : IdempotencyRecord

pub record InMemoryStore : Type 0 where
  pub records : List Entry
  pub limit : ℕ

abbrev pub entry_at : Text → Entry → Bool
entry_at k e = text_eq e.scope_key k

abbrev pub with_value : IdempotencyRecord → Entry → Entry
with_value r e = record e { value = r }

abbrev pub value_of : Option Entry → Option IdempotencyRecord
value_of none = none
value_of (some e) = some e.value

unfoldable pub get : InMemoryStore → Text → Option IdempotencyRecord
get store k = value_of (select_one (entry_at k) store.records)

-- `none` is `IdempotencyCapacityExceededError`.
unfoldable pub put : InMemoryStore → Text → IdempotencyRecord → Option InMemoryStore
put store k r =
    if is_some (select_one (entry_at k) store.records)
    then some (record store { records = update (entry_at k) (with_value r) store.records })
    else if leb store.limit (length store.records)
    then none
    else some
        (record store { records = insert (record { scope_key = k; value = r }) store.records })
