-- ===== src/Js.antt =====
-- JavaScript values, as the validators of untrusted input read them (`unknown` in TypeScript).
-- An object has a mark for a plain one (its prototype is `Object.prototype` or null) and its own
-- enumerable fields. A number is a natural number or any other one (negative, fractional, NaN, ∞).
use agent_pool.Prelude.{
  ℕ, Bool, true, false, ◌&&◌, ◌||◌, List, [], ◌∷◌, Text, length, text_eq, ltb, leb, ◌==◌,
  if◌then◌else◌,
}

mutual
  pub data Value : Type 0 where
    undefined : Value
    null : Value
    bool : Bool → Value
    number : ℕ → Value
    other_number : ℕ → Value
    string : Text → Value
    array : Values → Value
    object : Bool → Fields → Value

  pub data Values : Type 0 where
    end : Values
    item : Value → Values → Values

  pub data Fields : Type 0 where
    stop : Fields
    field : Text → Value → Fields → Fields

unfoldable pub items : Values → List Value
items end = []
items (item v vs) = v ∷ items vs

-- `Object.keys`.
unfoldable pub keys : Fields → List Text
keys stop = []
keys (field k v fs) = k ∷ keys fs

-- `Object.hasOwn(record, key)`.
unfoldable pub has_own : Fields → Text → Bool
has_own stop key = false
has_own (field k v fs) key = if text_eq k key then true else has_own fs key

-- `Object.hasOwn(record, key) ? record[key] : undefined`. On a plain object this is also what the
-- property access `record.key` reads, for keys that `Object.prototype` does not have.
unfoldable pub own : Fields → Text → Value
own stop key = undefined
own (field k v fs) key = if text_eq k key then v else own fs key

unfoldable pub mem_text : Text → List Text → Bool
mem_text t [] = false
mem_text t (s ∷ ss) = if text_eq s t then true else mem_text t ss

-- `xs.every((key) => allowed.has(key))`.
unfoldable pub every_in : List Text → List Text → Bool
unfolding mem_text
every_in allowed [] = true
every_in allowed (k ∷ ks) = mem_text k allowed && every_in allowed ks

-- `[...allowed].every((key) => Object.hasOwn(value, key))`.
unfoldable pub every_own : Fields → List Text → Bool
unfolding has_own
every_own fs [] = true
every_own fs (k ∷ ks) = has_own fs k && every_own fs ks

unfoldable pub has_exact_keys : List Text → Fields → Bool
unfolding keys every_in every_own
has_exact_keys allowed fs =
    length (keys fs) == length allowed && every_in allowed (keys fs) && every_own fs allowed

-- `typeof value === 'string' && value.length > 0 && value.length <= max`.
unfoldable pub is_non_empty_string : ℕ → Value → Bool
is_non_empty_string max (string s) = ltb 0 (length s) && leb (length s) max
is_non_empty_string max _ = false

-- `typeof value === 'number' && Number.isInteger(value) && value >= 1`.
unfoldable pub is_positive_integer : Value → Bool
is_positive_integer (number n) = leb 1 n
is_positive_integer _ = false

unfoldable pub is_undefined : Value → Bool
is_undefined undefined = true
is_undefined _ = false

-- The units that `String.prototype.trim` removes.
abbrev is_space : ℕ → Bool
is_space u =
    (leb 9 u && leb u 13)
    || u == 32
    || u == 0xa0
    || u == 0x1680
    || (leb 0x2000 u && leb u 0x200a)
    || u == 0x2028
    || u == 0x2029
    || u == 0x202f
    || u == 0x205f
    || u == 0x3000
    || u == 0xfeff

-- `value.trim().length === 0`.
unfoldable pub is_blank : Text → Bool
is_blank [] = true
is_blank (u ∷ s) = is_space u && is_blank s
