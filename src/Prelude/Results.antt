-- ===== src/Prelude/Results.antt =====
-- A computation that returns or raises, with `do` blocks.
use mathlib.Core.Path.{◌≡◌, refl}

-- `err` carries what was raised, `ok` what was returned.
pub data Result (Exception Value : Type 0) : Type 0 where
  err : Exception → Result Exception Value
  ok : Value → Result Exception Value

abbrev pub ◌>>=◌ :
    {Exception Value Next : Type 0}
    → Result Exception Value
    → (Value → Result Exception Next)
    → Result Exception Next
err raised >>= rest = err raised
ok value >>= rest = rest value

infixl 5 ◌>>=◌
-- Inversion of a successful bind.
pub >>=-eq-ok :
    {Exception Value Next : Type 0} (m : Result Exception Value)
    (rest : Value → Result Exception Next) {b : Next}
    → (m >>= rest) ≡ ok b
    → (a : Value) × (m ≡ ok a) × (rest a ≡ ok b)
>>=-eq-ok (ok a) rest h = (a, refl, h)
>>=-eq-ok (err e) rest h = cc

-- A bind returns where its parts return.
pub >>=-returns :
    {Exception Value Next : Type 0} (m : Result Exception Value)
    (rest : Value → Result Exception Next)
    → (a : Value) × (m ≡ ok a)
    → ((a : Value) → (b : Next) × (rest a ≡ ok b))
    → (b : Next) × ((m >>= rest) ≡ ok b)
>>=-returns (ok a) rest h k = k a
>>=-returns (err e) rest (a, h) k = cc
