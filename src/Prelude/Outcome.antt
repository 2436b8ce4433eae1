-- ===== src/Prelude/Outcome.antt =====
-- Go's (value, error) results, over an error type of the package that returns them.
use mathlib.Core.Path.{◌≡◌, refl}
use mathlib.Core.Logic.{◌⊎◌, inl, inr}
use mathlib.Core.Bool.{Bool, true, false, not}

pub data Result {ℓ} (E : Type 0) (A : Type ℓ) : Type ℓ where
  ok : A → Result E A
  err : E → Result E A

infixl 5 ◌>>=◌ ◌>>◌
abbrev pub ◌>>=◌ {ℓ κ} :
    {E : Type 0} {A : Type ℓ} {B : Type κ} → Result E A → (A → Result E B) → Result E B
ok a >>= f = f a
err e >>= f = err e

abbrev pub ◌>>◌ {ℓ} : {E : Type 0} {B : Type ℓ} → Result E (Unit {0}) → Result E B → Result E B
m >> k = m >>= λ _. k

-- `if !b { return err }`
abbrev pub guard : {E : Type 0} → Bool → E → Result E (Unit {0})
guard true e = ok tt
guard false e = err e

-- Two checks in a row that both pass.
pub both_passed :
    {E : Type 0} (check next : Result E (Unit {0}))
    → (check >> next) ≡ ok tt
    → (check ≡ ok tt) × (next ≡ ok tt)
both_passed (err e) next h = cc
both_passed (ok tt) next h = (refl, h)

pub Result-cases {ℓ} :
    {E : Type 0} {A : Type ℓ} (r : Result E A) → ((a : A) × (r ≡ ok a)) ⊎ ((e : E) × (r ≡ err e))
Result-cases (ok a) = inl (a, refl)
Result-cases (err e) = inr (e, refl)

-- Three checks in a row that all pass.
pub checks_passed :
    {E : Type 0} (m n : Result E (Unit {0})) (b : Bool) (e : E)
    → (m >> (n >> guard b e)) ≡ ok tt
    → (m ≡ ok tt) × (n ≡ ok tt) × (b ≡ true)
checks_passed (ok u) (ok v) true e h = (refl, refl, refl)
checks_passed (ok u) (ok v) false e h = cc
checks_passed (ok u) (err x) b e h = cc
checks_passed (err x) n b e h = cc

-- What a success says of the steps before it.
pub >>=-ok {ℓ κ} :
    {E : Type 0} {A : Type ℓ} {B : Type κ} (step : Result E A) (next : A → Result E B) {y : B}
    → (step >>= next) ≡ ok y
    → (x : A) × (step ≡ ok x) × (next x ≡ ok y)
>>=-ok (err e) next reached = cc
>>=-ok (ok x) next reached = (x, refl, reached)

pub >>-ok {ℓ} :
    {E : Type 0} {B : Type ℓ} (check : Result E (Unit {0})) (next : Result E B) {y : B}
    → (check >> next) ≡ ok y
    → (check ≡ ok tt) × (next ≡ ok y)
>>-ok (err e) next reached = cc
>>-ok (ok x) next reached = (refl, reached)

pub guard-ok : {E : Type 0} (test : Bool) (e : E) → guard test e ≡ ok tt → test ≡ true
guard-ok false e passed = cc
guard-ok true e passed = refl

pub ok_injective {ℓ} :
    {E : Type 0} {A : Type ℓ} {a b : A} → ◌≡◌ {A = Result E A} (ok a) (ok b) → a ≡ b
ok_injective h = cc

pub not-true : (b : Bool) → not b ≡ true → b ≡ false
not-true true h = cc
not-true false h = refl

pub not-false : (b : Bool) → not b ≡ false → b ≡ true
not-false true h = refl
not-false false h = cc
