-- ===== src/Result.antt =====
-- What a Python function returns or raises. `◌>>=◌` ends at the first exception.
use anyhop.Prelude.{◌≡◌, refl, Bool, true, false}

pub data Result {ℓ κ} (Raised : Type ℓ) (Value : Type κ) : Type (ℓ ⊔ κ) where
  err : Raised → Result Raised Value
  ok : Value → Result Raised Value

-- Statements in a row: what the first one returns goes to the next.
infixl 5 ◌>>=◌
abbrev pub ◌>>=◌ {ℓ κ μ} :
    {Raised : Type ℓ} {Value : Type κ} {Next : Type μ}
    → Result Raised Value
    → (Value → Result Raised Next)
    → Result Raised Next
err raised >>= next = err raised
ok value >>= next = next value

-- A statement whose value is dropped.
infixl 5 ◌>>◌
abbrev pub ◌>>◌ {ℓ κ μ} :
    {Raised : Type ℓ} {Value : Type κ} {Next : Type μ}
    → Result Raised Value
    → Result Raised Next
    → Result Raised Next
first >> next = first >>= λ _. next

-- Where a row of statements returns, its first one does.
pub >>=-eq-ok {ℓ κ μ} :
    {Raised : Type ℓ} {Value : Type κ} {Next : Type μ} (first : Result Raised Value)
    (next : Value → Result Raised Next) {last : Next}
    → (first >>= next) ≡ ok last
    → (value : Value) × (first ≡ ok value) × (next value ≡ ok last)
>>=-eq-ok (err raised) next returned = cc
>>=-eq-ok (ok value) next returned = (value, refl, returned)

-- `if not test: raise raised`
abbrev pub require {ℓ} : {Raised : Type ℓ} → Bool → Raised → Result Raised (Unit {0})
require false raised = err raised
require true raised = ok tt
