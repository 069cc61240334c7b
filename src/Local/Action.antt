-- ===== src/Local/Action.antt =====
-- Methods that change an object and may throw: what was changed before a throw stays changed.
use randevu.Base.{◌≡◌, ◌⊎◌, inl, inr, refl, ℕ, Bool, true, false, Option, none, some, Str}

-- What a method throws: a RelayError with its status and code, an `Error` with its message, or an
-- exception of a third-party function.
pub data Fault : Type 0 where
  relay_error : ℕ → Str → Fault
  error : Str → Fault
  foreign : Fault

pub data Attempt {ℓ} (A : Type ℓ) : Type ℓ where
  done : A → Attempt A
  fails : Fault → Attempt A

abbrev pub Action {ℓ} : Type 0 → Type ℓ → Type ℓ
Action S A = S → Attempt A × S

abbrev pub then {ℓ κ} :
    {S : Type 0} {A : Type ℓ} {B : Type κ} → (A → Action S B) → Attempt A × S → Attempt B × S
then f (done a, s) = f a s
then f (fails e, s) = (fails e, s)

infixl 5 ◌>>=◌ ◌>>◌
abbrev pub ◌>>=◌ {ℓ κ} :
    {S : Type 0} {A : Type ℓ} {B : Type κ} → Action S A → (A → Action S B) → Action S B
m >>= f = λ s. then f (m s)

abbrev pub ◌>>◌ {κ} : {S : Type 0} {B : Type κ} → Action S (Unit {0}) → Action S B → Action S B
m >> k = λ s. then (λ u. k) (m s)

abbrev pub give {ℓ} : {S : Type 0} {A : Type ℓ} → A → Action S A
give a = λ s. (done a, s)

abbrev pub throw {ℓ} : {S : Type 0} {A : Type ℓ} → Fault → Action S A
throw e = λ s. (fails e, s)

-- A call of a third-party function.
abbrev pub or_foreign {ℓ} : {S : Type 0} {A : Type ℓ} → Option A → Action S A
or_foreign none = throw foreign
or_foreign (some a) = give a

-- if (!ok) throw new Error(message)
abbrev pub require : {S : Type 0} → Bool → Str → Action S (Unit {0})
require true message = give tt
require false message = throw (error message)

-- A call returned, or it threw.
pub attempt-cases {ℓ} :
    {S : Type 0} {A : Type ℓ} (r : Attempt A × S)
    → ((a : A) × ((s : S) × (r ≡ (done a, s)))) ⊎ ((e : Fault) × ((s : S) × (r ≡ (fails e, s))))
attempt-cases (done a, s) = inl (a, (s, refl))
attempt-cases (fails e, s) = inr (e, (s, refl))

-- A method that returned had a first call that returned, and went on from there.
pub then-done {ℓ κ} :
    {S : Type 0} {A : Type ℓ} {B : Type κ} {b : B} {s' : S} (r : Attempt A × S) (f : A → Action S B)
    → then f r ≡ (done b, s')
    → (a : A) × ((s₁ : S) × ((r ≡ (done a, s₁)) × (f a s₁ ≡ (done b, s'))))
then-done (done a, s) f h = (a, (s, (refl, h)))
then-done (fails e, s) f h = cc h

pub or_foreign-done {ℓ} :
    {S : Type 0} {A : Type ℓ} {a : A} {s s' : S} (o : Option A)
    → or_foreign o s ≡ (done a, s')
    → (o ≡ some a) × (s ≡ s')
or_foreign-done none h = cc h
or_foreign-done (some a) h = (cc h, cc h)

pub require-done :
    {S : Type 0} {u : Unit {0}} {s s' : S} (b : Bool) (m : Str)
    → require b m s ≡ (done u, s')
    → (b ≡ true) × (s ≡ s')
require-done true m h = (refl, cc h)
require-done false m h = cc h

pub same_state {ℓ} :
    {S : Type 0} {A : Type ℓ} {a b : A} {s s' : S}
    → ◌≡◌ {A = Attempt A × S} (done a, s) (done b, s')
    → s ≡ s'
same_state h = cc h

pub same_value {ℓ} :
    {S : Type 0} {A : Type ℓ} {a b : A} {s s' : S}
    → ◌≡◌ {A = Attempt A × S} (done a, s) (done b, s')
    → a ≡ b
same_value h = cc h
