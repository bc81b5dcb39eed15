-- ===== src/Common/Action.antt =====
-- A service method: it reads and changes a state, and returns a value or throws. What was written
-- before a throw stays written, unless a transaction takes it back.
use mathlib.Core.Path.{◌≡◌, refl}
use mathlib.Core.Logic.{◌⊎◌, inl, inr}
use mathlib.Core.Bool.{Bool}
use mathlib.Core.Option.{Option, none, some}
use native.Mathlib.Omega.{arith}
use facilpay_api.Common.Tests.{⊤, if◌then◌else◌}

-- The exceptions of `@nestjs/common` that the services throw; `failure` is any other one, such as
-- that of a failed database or network call.
pub data Error : Type 0 where
  not_found conflict bad_request unprocessable gone forbidden unauthorized locked failure : Error

pub data Result (A : Type 0) : Type 0 where
  ok : A → Result A
  err : Error → Result A

pub Result-cases :
    {A : Type 0} (r : Result A) → ((a : A) × (r ≡ ok a)) ⊎ ((e : Error) × (r ≡ err e))
Result-cases (ok a) = inl (a, refl)
Result-cases (err e) = inr (e, refl)

abbrev pub is_ok : {A : Type 0} → Result A → Bool
is_ok (ok _) = mathlib.Core.Bool.true
is_ok (err _) = mathlib.Core.Bool.false

module _ {S : Type 0} where
  abbrev pub pure : {A : Type 0} → A → S → Result A × S
  pure a s = (ok a, s)

  abbrev pub throw : {A : Type 0} → Error → S → Result A × S
  throw e s = (err e, s)

  abbrev pub or_throw : {A : Type 0} → Option A → Error → S → Result A × S
  or_throw none e s = (err e, s)
  or_throw (some a) e s = (ok a, s)

  abbrev pub throw_if : Bool → Error → S → Result ⊤ × S
  throw_if c e s = (if c then err e else ok tt, s)

  abbrev pub gets : {A : Type 0} → (S → A) → S → Result A × S
  gets f s = (ok (f s), s)

  abbrev pub modify : (S → S) → S → Result ⊤ × S
  modify f s = (ok tt, f s)

infixl 5 ◌>>=◌ ◌>>◌
abbrev pub ◌>>=◌ : {S A B : Type 0} → (S → Result A × S) → (A → S → Result B × S) → S → Result B × S
◌>>=◌ m f s = let (r, s') = m s in elim r [ ok a ↦ f a s' | err e ↦ (err e, s') ]

abbrev pub ◌>>◌ : {S A B : Type 0} → (S → Result A × S) → (S → Result B × S) → S → Result B × S
m >> k = m >>= λ _. k

-- A step that returned goes on.
pub bind_step :
    {S A B : Type 0} (m : S → Result A × S) (f : A → S → Result B × S) (s : S) (a : A)
    → (m s).0 ≡ ok a
    → (m >>= f) s ≡ f a (m s).1
bind_step m f s a e = rw (◌>>=◌, e) refl

-- A call of two steps that returns: the first step returned, and the call is the second one.
pub bind_ok :
    {S A B : Type 0} (m : S → Result A × S) (f : A → S → Result B × S) (s : S) (b : B)
    → ((m >>= f) s).0 ≡ ok b
    → (a : A) × ((m s).0 ≡ ok a) × ((m >>= f) s ≡ f a (m s).1)
bind_ok m f s b h = elim (Result-cases (m s).0) [
  | inl (a, e) ↦ (a, e, bind_step m f s a e)
  | inr (x, e) ↦ ground (arith, e, h)
]
