-- ===== src/Base/Results.antt =====
-- What a Go call may end in: a result, an error that is returned, or a panic. An `error` value is
-- its message and whether `errors.IsNotFound` holds of it; `fmt.Errorf` without `%w` wraps the
-- message alone.
use Prim.Native.String.{String, ◌++◌ as ◌<>◌}
use mathlib.Core.Path.{◌≡◌, refl}
use mathlib.Core.Logic.{◌⊎◌, inl, inr}
use mathlib.Core.Bool.{Bool, false}

pub record GoError : Type 0 where
  pub message : String
  pub is_not_found : Bool

abbrev pub errorf : String → GoError
errorf text = record { message = text; is_not_found = false }

-- `fmt.Errorf("<prefix>%s", err.Error())`
abbrev pub wrap : String → GoError → GoError
wrap prefix e = errorf (prefix <> e.message)

pub data Outcome {ℓ} (A : Type ℓ) : Type ℓ where
  ok : A → Outcome A
  err : GoError → Outcome A
  panic : Outcome A

infixl 5 ◌>>=◌
abbrev pub ◌>>=◌ {ℓ κ} : {A : Type ℓ} {B : Type κ} → Outcome A → (A → Outcome B) → Outcome B
ok a >>= f = f a
err e >>= f = err e
panic >>= f = panic

pub Outcome-cases {ℓ} :
    {A : Type ℓ} (m : Outcome A)
    → ((a : A) × (m ≡ ok a)) ⊎ ((e : GoError) × (m ≡ err e)) ⊎ (m ≡ panic)
Outcome-cases (ok a) = inl (a, refl)
Outcome-cases (err e) = inr (inl (e, refl))
Outcome-cases panic = inr (inr refl)

abbrev pub IsOk {ℓ} : {A : Type ℓ} → Outcome A → Type 0
IsOk (ok a) = Unit
IsOk (err e) = ⊥
IsOk panic = ⊥

pub ok_of_IsOk {ℓ} : {A : Type ℓ} (m : Outcome A) → IsOk m → (a : A) × (m ≡ ok a)
ok_of_IsOk (ok a) h = (a, refl)
ok_of_IsOk (err e) h = absurd h
ok_of_IsOk panic h = absurd h

-- What a chain of two calls that ended well was made of.
pub >>=-eq-ok {ℓ κ} :
    {A : Type ℓ} {B : Type κ} {end : B} (first : Outcome A) (next : A → Outcome B)
    → (first >>= next) ≡ ok end
    → (middle : A) × (first ≡ ok middle) × (next middle ≡ ok end)
>>=-eq-ok (ok middle) next ended = (middle, refl, ended)
>>=-eq-ok (err e) next ended = cc
>>=-eq-ok panic next ended = cc
