-- ===== src/Base/Outcome.antt =====
-- A function that returns, or throws an `Error` with a message.
use randevu.Base.Text.{Str}
use mathlib.Core.Bool.{Bool, true, false}

pub data Outcome {ℓ} (A : Type ℓ) : Type ℓ where
  returns : A → Outcome A
  throws : Str → Outcome A

infixl 5 ◌>>=◌ ◌>>◌
abbrev pub ◌>>=◌ {ℓ κ} : {A : Type ℓ} {B : Type κ} → Outcome A → (A → Outcome B) → Outcome B
returns a >>= f = f a
throws e >>= f = throws e

abbrev pub ◌>>◌ {ℓ} : {B : Type ℓ} → Outcome (Unit {0}) → Outcome B → Outcome B
m >> k = m >>= λ _. k

-- if (bad) throw new Error(message)
abbrev pub throw_if : Bool → Str → Outcome (Unit {0})
throw_if true e = throws e
throw_if false e = returns tt
