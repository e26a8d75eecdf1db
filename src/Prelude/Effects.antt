-- ===== src/Prelude/Effects.antt =====
-- Steps that can go wrong, and what an external call answers.
use mathlib.Core.Option.{Option, none, some}
use mathlib.Core.Path.{◌≡◌}

-- `none` is undefined behaviour, or an exception that nothing catches.
infixl 5 ◌>>=◌ ◌>>◌
abbrev pub ◌>>=◌ {ℓ κ} : {A : Type ℓ} {B : Type κ} → Option A → (A → Option B) → Option B
none >>= f = none
some a >>= f = f a

abbrev pub ◌>>◌ {ℓ} : {B : Type ℓ} → Option (Unit {0}) → Option B → Option B
m >> k = m >>= λ _. k

-- The step ends without undefined behaviour, in a value that satisfies `P`.
abbrev pub Returns {ℓ κ} : {A : Type ℓ} → Option A → (A → Type κ) → Type (ℓ ⊔ κ)
Returns {A} r P = (a : A) × (r ≡ some a) × P a
