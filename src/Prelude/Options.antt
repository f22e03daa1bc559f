-- ===== src/Prelude/Options.antt =====
-- Fallible steps: the operators of a do block, a test that must hold, and their inversion.
use mathlib.Core.Path.{◌≡◌, refl}
use mathlib.Core.Bool.{Bool, true, false}
use mathlib.Core.Option.{Option, none, some}
use native.Mathlib.Omega.{arith}

infixl 5 ◌>>=◌ ◌>>◌
abbrev pub ◌>>=◌ {ℓ κ} : {A : Type ℓ} {B : Type κ} → Option A → (A → Option B) → Option B
none >>= f = none
some a >>= f = f a

abbrev pub ◌>>◌ {ℓ} : {B : Type ℓ} → Option (Unit {0}) → Option B → Option B
m >> k = m >>= λ _. k

abbrev pub require : Bool → Option (Unit {0})
require true = some tt
require false = none

pub >>=-eq-some {ℓ κ} :
    {A : Type ℓ} {B : Type κ} (m : Option A) (f : A → Option B) (b : B)
    → (m >>= f) ≡ some b
    → (a : A) × (m ≡ some a) × (f a ≡ some b)
>>=-eq-some none f b h = absurd (ground (arith, h))
>>=-eq-some (some a) f b h = (a, refl, h)

pub require-eq-some {ℓ} :
    {B : Type ℓ} (t : Bool) (k : Option B) (b : B)
    → (require t >> k) ≡ some b
    → (t ≡ true) × (k ≡ some b)
require-eq-some true k b h = (refl, h)
require-eq-some false k b h = absurd (ground (arith, h))

-- The inversion as a case rule, so that the steps of a do block are taken one after the other.
pub >>=-cases {ℓ κ μ} :
    {A : Type ℓ} {B : Type κ} {C : Type μ} (m : Option A) {f : A → Option B} {b : B}
    → (m >>= f) ≡ some b
    → ((a : A) → m ≡ some a → f a ≡ some b → C)
    → C
>>=-cases none e k = absurd (ground (arith, e))
>>=-cases (some a) e k = k a refl e
