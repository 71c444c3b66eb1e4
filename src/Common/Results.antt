-- ===== src/Common/Results.antt =====
-- What a C++ call can end in: a value, an exception of the standard library that nothing in the
-- program catches, or undefined behaviour.
use Prim.Native.Nat.{ℕ, ◌+◌, ◌-◌, ◌*◌, ◌/◌, ◌%◌, ◌^◌, ◌<◌}
use mathlib.Core.Path.{◌≡◌, refl}
use mathlib.Core.Logic.{◌⊎◌, inl, inr}
use mathlib.Core.Option.{Option, none, some}
use fring.Common.Tests.{ltb, ◌==◌, if◌then◌else◌}
use fring.Common.Int.{ℤ, pos, negsuc}
use native.Mathlib.Omega.{arith}
use native.Mathlib.Nat.{mod-eq_of_lt}
use mathlib.Core.Bool.{true}

-- `out_of_range` and `invalid_argument` are the standard exceptions, `undefined` is undefined
-- behaviour (a null or dangling pointer, an index past the end, division by zero, overflow of an
-- `int`), `bad_weak_ptr` is the exception of `shared_from_this`, and `out_of_fuel` is the bound of a
-- modelled loop. `negative_int` is no fault of the code: a count or a number of a node that is
-- unsigned in a message and negative as an `int`, with which the code goes on and the model does not.
pub data Fault : Type 0 where
  out_of_range invalid_argument undefined bad_weak_ptr negative_int out_of_fuel : Fault

-- a fault ends the call that meets it, and the call's caller in turn
pub data Result {ℓ} (Value : Type ℓ) : Type ℓ where
  err : Fault → Result Value
  ok : Value → Result Value

infixl 5 ◌>>=◌
abbrev pub ◌>>=◌ {ℓ κ} :
    {Value : Type ℓ} {Next : Type κ} → Result Value → (Value → Result Next) → Result Next
err fault >>= next = err fault
ok value >>= next = next value

-- the value of an `Option`, or a fault where it has none
abbrev pub or_fail {ℓ} : {Value : Type ℓ} → Option Value → Fault → Result Value
or_fail (some value) fault = ok value
or_fail none fault = err fault

pub >>=-assoc {ℓ κ κ'} :
    {A : Type ℓ} {B : Type κ} {C : Type κ'} (call : Result A) (f : A → Result B) (g : B → Result C)
    → ((call >>= f) >>= g) ≡ (call >>= λ a. f a >>= g)
>>=-assoc (err fault) f g = refl
>>=-assoc (ok a) f g = refl

-- A call that returned a value has passed each of its steps.
pub >>=-eq-ok {ℓ κ} :
    {Value : Type ℓ} {Next : Type κ} (call : Result Value) (next : Value → Result Next)
    {result : Next}
    → (call >>= next) ≡ ok result
    → (value : Value) × (call ≡ ok value) × (next value ≡ ok result)
>>=-eq-ok (err fault) next returned = cc
>>=-eq-ok (ok value) next returned = (value, refl, returned)

pub ok_injective {ℓ} : {Value : Type ℓ} {a b : Value} → ok a ≡ ok b → a ≡ b
ok_injective e = cc

-- A call that ended in a fault met it in one of its steps.
pub >>=-eq-err {ℓ κ} :
    {Value : Type ℓ} {Next : Type κ} (call : Result Value) (next : Value → Result Next)
    {fault : Fault}
    → (call >>= next) ≡ err fault
    → (call ≡ err fault) ⊎ ((value : Value) × (call ≡ ok value) × (next value ≡ err fault))
>>=-eq-err (err fault) next failed = inl (cc)
>>=-eq-err (ok value) next failed = inr (value, refl, failed)

-- How a call ends: with a value that satisfies `P`, or with a fault that `Faults` allows.
abbrev pub Outcome {ℓ} :
    {Value : Type ℓ} → (Fault → Type 0) → (Value → Type 0) → Result Value → Type 0
Outcome Faults P (err fault) = Faults fault
Outcome Faults P (ok value) = P value

pub Outcome->>= {ℓ κ} :
    {Value : Type ℓ} {Next : Type κ} (Faults : Fault → Type 0) (P : Value → Type 0)
    (Q : Next → Type 0) (call : Result Value) (next : Value → Result Next)
    → Outcome Faults P call
    → ((value : Value) → P value → Outcome Faults Q (next value))
    → Outcome Faults Q (call >>= next)
Outcome->>= Faults P Q (err fault) next h k = h
Outcome->>= Faults P Q (ok value) next h k = k value h

pub Outcome-err {ℓ} :
    {Value : Type ℓ} (Faults : Fault → Type 0) (call : Result Value)
    → ((fault : Fault) → call ≡ err fault → Faults fault)
    → Outcome Faults (λ value. Unit) call
Outcome-err Faults (err fault) h = h fault refl
Outcome-err Faults (ok value) h = tt

pub Outcome-ok :
    {Value : Type 0} (Faults : Fault → Type 0) (call : Result Value)
    → ((fault : Fault) → call ≡ err fault → Faults fault)
    → Outcome Faults (λ value. call ≡ ok value) call
Outcome-ok Faults (err fault) h = h fault refl
Outcome-ok Faults (ok value) h = refl

pub Outcome-mono {ℓ} :
    {Value : Type ℓ} (Faults : Fault → Type 0) (P Q : Value → Type 0) (call : Result Value)
    → Outcome Faults P call
    → ((value : Value) → P value → Q value)
    → Outcome Faults Q call
Outcome-mono Faults P Q (err fault) h k = h
Outcome-mono Faults P Q (ok value) h k = k value h

-- any fault
abbrev pub Any : Fault → Type 0
Any fault = Unit

pub Outcome-Any : {Value : Type 0} (call : Result Value) → Outcome Any (λ value. Unit) call
Outcome-Any call = Outcome-err Any call (λ fault e. tt)

pub Outcome-forget :
    {Value : Type 0} (Faults : Fault → Type 0) (P : Value → Type 0) (call : Result Value)
    → Outcome Faults P call
    → Outcome Any P call
Outcome-forget Faults P (err fault) h = tt
Outcome-forget Faults P (ok value) h = h

pub Outcome-both :
    {Value : Type 0} (Faults : Fault → Type 0) (P Q : Value → Type 0) (call : Result Value)
    → Outcome Faults P call
    → Outcome Any Q call
    → Outcome Faults (λ value. P value × Q value) call
Outcome-both Faults P Q (err fault) h k = h
Outcome-both Faults P Q (ok value) h k = (h, k)

-- With no fault allowed, the call returns.
pub returns {ℓ} :
    {Value : Type ℓ} (P : Value → Type 0) (call : Result Value)
    → Outcome (λ fault. ⊥) P call
    → (value : Value) × (call ≡ ok value) × P value
returns P (err fault) h = absurd h
returns P (ok value) h = (value, refl, h)

-- 2 ^ 31, the bound of an `int`
abbrev pub int_mod : ℕ
int_mod = 2 ^ 31

-- `int` arithmetic on values that are not negative: overflow and division by zero are undefined.
abbrev pub mul_int : ℕ → ℕ → Result ℕ
mul_int a b = if ltb (a * b) int_mod then ok (a * b) else err undefined

abbrev pub add_int : ℕ → ℕ → Result ℕ
add_int a b = if ltb (a + b) int_mod then ok (a + b) else err undefined

-- an unsigned value that becomes an `int` and must not be negative there
abbrev pub as_int : ℕ → Result ℕ
as_int n = if ltb n int_mod then ok n else err negative_int

pub as_int_lem : (n : ℕ) → n < int_mod → as_int n ≡ ok n
as_int_lem n h = ground arith

-- a value that is assigned to an `int`, or the result of an `int` operation
abbrev pub to_int : ℤ → Result ℤ
to_int (pos n) = if ltb n int_mod then ok (pos n) else err undefined
to_int (negsuc n) = if ltb n int_mod then ok (negsuc n) else err undefined

pub to_int-pos : (n : ℕ) → n < int_mod → to_int (pos n) ≡ ok (pos n)
to_int-pos n h = ground arith

-- an unsigned value that is converted to `int`: the lower 32 bits, as two's complement
abbrev pub wrap_int : ℕ → ℤ
wrap_int n = let low = n % 2 ^ 32 in if ltb low int_mod then pos low else negsuc (2 ^ 32 - 1 - low)

pub wrap_int_lem : (n : ℕ) → n < int_mod → wrap_int n ≡ pos n
wrap_int_lem n h =
    let low : n % 2 ^ 32 ≡ n = mod-eq_of_lt (omega (arith, h)) in
    let small : ltb n int_mod ≡ true = ground arith in rw (low, small) refl

abbrev pub div_int : ℕ → ℕ → Result ℕ
div_int a b = if b == 0 then err undefined else ok (a / b)

abbrev pub mod_int : ℕ → ℕ → Result ℕ
mod_int a b = if b == 0 then err undefined else ok (a % b)
