-- ===== src/Prelude/Decimals.antt =====
-- `${n}` for a natural number, and what it says of the number.
use Prim.Native.Nat.{ℕ, zero, suc, ◌+◌, ◌-◌, ◌*◌, ◌/◌, ◌%◌, ◌<◌}
use mathlib.Core.Path.{◌≡◌, refl, sym, ap, ◌∙◌}
use mathlib.Core.Logic.{inl, inr}
use mathlib.Core.List.{[], ◌∷◌, ◌++◌}
use native.Mathlib.Omega.{arith}
use agent_pool.Prelude.Tests.{ltb, if◌then◌else◌, Bool-cases}
use agent_pool.Prelude.Texts.{Text}
use agent_pool.Prelude.Everywhere.{All}

-- `${n}` for a natural number, on fuel for its digits.
decimal_digits : ℕ → ℕ → Text
decimal_digits zero n = []
decimal_digits (suc f) n =
    let more = decimal_digits f (n / 10) in
    if ltb n 10 then (48 + n) ∷ [] else more ++ (48 + n % 10) ∷ []

unfoldable pub decimal : ℕ → Text
unfolding decimal_digits
decimal n = decimal_digits (suc n) n

-- The number that a text of digits stands for, after the digits read so far.
read_digits : ℕ → Text → ℕ
read_digits n [] = n
read_digits n (u ∷ s) = read_digits (n * 10 + (u - 48)) s

read_digits-append :
    (n : ℕ) (s : Text) (u : ℕ) → read_digits n (s ++ u ∷ []) ≡ read_digits n s * 10 + (u - 48)
unfolding read_digits
read_digits-append n [] u = refl
read_digits-append n (v ∷ s) u = read_digits-append (n * 10 + (v - 48)) s u

read_digits-decimal_digits : (f n : ℕ) → n < f → read_digits 0 (decimal_digits f n) ≡ n
unfolding decimal_digits read_digits
read_digits-decimal_digits zero n h = absurd (omega arith)
read_digits-decimal_digits (suc f) n h = elim (Bool-cases (ltb n 10)) [
  | inl small ↦ rw small (ground arith)
  | inr large ↦
      let fewer : n / 10 < f = ground arith in
      rw large (
        read_digits-append 0 (decimal_digits f (n / 10)) (48 + n % 10)
        ∙ omega (arith, read_digits-decimal_digits f (n / 10) fewer))
]

-- A number is told by its digits.
pub decimal-injective : (m n : ℕ) → decimal m ≡ decimal n → m ≡ n
unfolding decimal
decimal-injective m n e =
    sym (read_digits-decimal_digits (suc m) m (omega arith))
    ∙ (ap (read_digits 0) e ∙ read_digits-decimal_digits (suc n) n (omega arith))

-- Every unit is below the colon.
abbrev pub AllDigits : Text → Type 0
AllDigits s = All (λ u. u < 58) s

AllDigits-snoc : (s : Text) (u : ℕ) → AllDigits s → u < 58 → AllDigits (s ++ u ∷ [])
AllDigits-snoc [] u hs h = (h, tt)
AllDigits-snoc (v ∷ s) u hs h = (hs.0, AllDigits-snoc s u hs.1 h)

decimal_digits-AllDigits : (f n : ℕ) → AllDigits (decimal_digits f n)
unfolding decimal_digits
decimal_digits-AllDigits zero n = tt
decimal_digits-AllDigits (suc f) n = elim (Bool-cases (ltb n 10)) [
  | inl small ↦ rw small (ground arith)
  | inr large ↦ rw large (
      AllDigits-snoc (decimal_digits f (n / 10)) (48 + n % 10) (decimal_digits-AllDigits f (n / 10))
        (omega arith))
]

pub decimal-AllDigits : (n : ℕ) → AllDigits (decimal n)
unfolding decimal
decimal-AllDigits n = decimal_digits-AllDigits (suc n) n

-- Where two texts of digits, each followed by a colon, are one text, the digits are equal.
pub digits_before_colon :
    (s t a b : Text) → AllDigits s → AllDigits t → s ++ 58 ∷ a ≡ t ++ 58 ∷ b → (s ≡ t) × (a ≡ b)
digits_before_colon [] [] a b hs ht e = (refl, ground (arith, e))
digits_before_colon [] (v ∷ t) a b hs ht e = absurd (ground (arith, e, ht.0))
digits_before_colon (u ∷ s) [] a b hs ht e = absurd (ground (arith, e, hs.0))
digits_before_colon (u ∷ s) (v ∷ t) a b hs ht e =
    let rest = digits_before_colon s t a b hs.1 ht.1 (ground (arith, e)) in
    (ground (arith, e, rest.0), rest.1)
