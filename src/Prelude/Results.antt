-- ===== src/Prelude/Results.antt =====
-- Python exceptions as values: the classes that the modelled code raises or catches.
use mathlib.Core.Bool.{Bool, true, false}
use mathlib.Core.Path.{◌≡◌, refl}
use mathlib.Core.Logic.{◌⊎◌, inl, inr}

pub data Error : Type 0 where
  database_error fetch_error value_error validation_error runtime_error http_status_error
        transport_error timeout_error key_error index_error not_implemented_error :
      Error

pub data Result {ℓ} (A : Type ℓ) : Type ℓ where
  raised : Error → Result A
  ok : A → Result A

infixl 5 ◌>>=◌ ◌>>◌
abbrev pub ◌>>=◌ {α β} :
    {Value : Type α} {Out : Type β} → Result Value → (Value → Result Out) → Result Out
raised e >>= next = raised e
ok value >>= next = next value

-- A check before the rest of a block.
abbrev pub ◌>>◌ {β} : {Out : Type β} → Result (Unit {0}) → Result Out → Result Out
raised e >> rest = raised e
ok done >> rest = rest

-- `if not b: raise e`
abbrev pub require : Bool → Error → Result (Unit {0})
require true e = ok tt
require false e = raised e

-- The result of a check, which returns nothing or raises.
abbrev pub Checked : Type 0
Checked = Result (Unit {0})

pub Result-cases {ℓ} :
    {A : Type ℓ} (r : Result A) → ((a : A) × (r ≡ ok a)) ⊎ ((e : Error) × (r ≡ raised e))
Result-cases (ok a) = inl (a, refl)
Result-cases (raised e) = inr (e, refl)
