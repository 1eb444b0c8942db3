-- ===== src/Python/Result.antt =====
-- Exceptions: a call returns a value or raises.
use toi_no_mori_mvs.Common.{String, Bool, true, false, ◌≡◌, refl, sym, subst, ◌⊎◌, inl, inr}

pub data Error : Type 0 where
  -- `ControllerError`, with its message; the text of a chained exception is left out.
  controller_error : String → Error
  -- `EvidenceValidationError`, with its message, and `json.JSONDecodeError`
  validation_error : String → Error
  json_error : Error
  attribute_error type_error key_error value_error overflow_error os_error re_error : Error

-- A call raises or returns a value.
pub data Result {ℓ} (Value : Type ℓ) : Type ℓ where
  err : (raised : Error) → Result Value
  ok : (value : Value) → Result Value

-- `if not passed: raise ControllerError(message)`.
abbrev pub require : (passed : Bool) (message : String) → Result (Unit {0})
require false message = err (controller_error message)
require true message = ok tt

infixl 5 ◌>>=◌ ◌>>◌
-- The next statement, which may use the value of the one before.
abbrev pub ◌>>=◌ {κ ℓ} :
    {Value : Type κ} {Next : Type ℓ} → Result Value → (Value → Result Next) → Result Next
err raised >>= next = err raised
ok value >>= next = next value

abbrev pub ◌>>◌ {ℓ} : {Next : Type ℓ} → Result (Unit {0}) → Result Next → Result Next
first >> next = first >>= λ _. next

-- A statement behind a call returns only if the call did.
pub >>=-eq-ok {κ ℓ} :
    {Value : Type κ} {Next : Type ℓ} (call : Result Value) (next : Value → Result Next)
    {last : Next}
    → (call >>= next) ≡ ok last
    → (value : Value) × (call ≡ ok value) × (next value ≡ ok last)
>>=-eq-ok (err raised) next returned = cc
>>=-eq-ok (ok value) next returned = (value, refl, returned)

-- Inversion of a test that passed.
pub require-eq-ok : (b : Bool) (message : String) → require b message ≡ ok tt → b ≡ true
require-eq-ok true message h = refl
require-eq-ok false message h = cc

-- Inversion of a sequence that begins with a test.
pub require->> {ℓ} :
    {B : Type ℓ} (b : Bool) (message : String) (k : Result B) {r : B}
    → (require b message >> k) ≡ ok r
    → (b ≡ true) × (k ≡ ok r)
require->> true message k h = (refl, h)
require->> false message k h = cc

pub ok_injective {ℓ} : {A : Type ℓ} {a b : A} → ok a ≡ ok b → a ≡ b
ok_injective h = cc

-- Inversion of a sequence of two calls that return nothing.
pub >>-eq-ok {ℓ} :
    {B : Type ℓ} (m : Result (Unit {0})) (k : Result B) {r : B}
    → (m >> k) ≡ ok r
    → (m ≡ ok tt) × (k ≡ ok r)
>>-eq-ok (ok tt) k h = (refl, h)
>>-eq-ok (err e) k h = cc

-- The call returns.
abbrev pub Returns {ℓ} : {A : Type ℓ} → Result A → Type 0
Returns (ok a) = Unit
Returns (err e) = ⊥

pub >>=-Returns {ℓ κ} :
    {A : Type ℓ} {B : Type κ} (m : Result A) (f : A → Result B)
    → Returns m
    → ((a : A) → m ≡ ok a → Returns (f a))
    → Returns (m >>= f)
>>=-Returns (ok a) f h k = k a refl
>>=-Returns (err e) f h k = elim h [ ]

pub Returns-of_eq {ℓ} : {A : Type ℓ} {m : Result A} {a : A} → m ≡ ok a → Returns m
Returns-of_eq {a} h = subst Returns (sym h) tt

pub Returns-ok {ℓ} : {A : Type ℓ} (m : Result A) → Returns m → (a : A) × (m ≡ ok a)
Returns-ok (ok a) h = (a, refl)
Returns-ok (err e) h = elim h [ ]

pub >>=-Returns_inv {ℓ κ} :
    {A : Type ℓ} {B : Type κ} (m : Result A) (f : A → Result B)
    → Returns (m >>= f)
    → (a : A) × (m ≡ ok a) × Returns (f a)
>>=-Returns_inv (ok a) f h = (a, refl, h)
>>=-Returns_inv (err e) f h = elim h [ ]

pub Result-cases {ℓ} :
    {A : Type ℓ} (call : Result A)
    → ((value : A) × (call ≡ ok value)) ⊎ ((raised : Error) × (call ≡ err raised))
Result-cases (ok value) = inl (value, refl)
Result-cases (err raised) = inr (raised, refl)
