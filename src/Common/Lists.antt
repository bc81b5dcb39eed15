-- ===== src/Common/Lists.antt =====
-- Lists: length over the native numbers, a predicate on all elements, membership and selection.
use Prim.Native.Nat.{ℕ, zero, suc, ◌≤◌}
use mathlib.Core.Path.{◌≡◌, refl, sym, subst}
use mathlib.Core.Logic.{◌↔◌, ◌⊎◌, inl, inr}
use mathlib.Core.Bool.{Bool, true, false, ◌||◌}
use mathlib.Core.Option.{Option, none, some}
use mathlib.Core.List.{List, [], ◌∷◌}
use native.Mathlib.Omega.{arith}
use facilpay_api.Common.Tests.{if◌then◌else◌, ◌==◌, ==_iff, Bool-cases}

module _ {ℓ} {A : Type ℓ} where
  abbrev pub length : List A → ℕ
  length [] = 0
  length (x ∷ xs) = suc (length xs)

  -- `findOneBy`, as the first row that is found
  abbrev pub first : List A → Option A
  first [] = none
  first (x ∷ xs) = some x

  abbrev pub is_empty : List A → Bool
  is_empty [] = true
  is_empty (x ∷ xs) = false

  abbrev pub take : ℕ → List A → List A
  take zero xs = []
  take (suc n) [] = []
  take (suc n) (x ∷ xs) = x ∷ take n xs

  pub length-take : (n : ℕ) (xs : List A) → length (take n xs) ≤ n
  length-take zero xs = omega arith
  length-take (suc n) [] = omega arith
  length-take (suc n) (x ∷ xs) = omega (arith, length-take n xs)

  -- The library's `filter` takes decisions; the code's tests are Boolean.
  abbrev pub filter : (A → Bool) → List A → List A
  filter p [] = []
  filter p (x ∷ xs) = if p x then x ∷ filter p xs else filter p xs

  abbrev pub any : (A → Bool) → List A → Bool
  any p [] = false
  any p (x ∷ xs) = p x || any p xs

-- Membership, as a sum to split on.
abbrev pub In : {A : Type 0} → A → List A → Type 0
In a [] = ⊥
In a (x ∷ xs) = (a ≡ x) ⊎ In a xs

pub List-cases {ℓ} : {A : Type ℓ} (l : List A) → (l ≡ []) ⊎ ((x : A) × (t : List A) × (l ≡ x ∷ t))
List-cases [] = inl refl
List-cases (x ∷ t) = inr (x, t, refl)

module _ {ℓ κ} {A : Type ℓ} (P : A → Type κ) where
  abbrev pub All : List A → Type κ
  All [] = Unit
  All (x ∷ xs) = P x × All xs

  pub All-take : (n : ℕ) (xs : List A) → All xs → All (take n xs)
  All-take zero xs h = tt
  All-take (suc n) [] h = tt
  All-take (suc n) (x ∷ xs) h = (h.0, All-take n xs h.1)

-- `list.includes(k)`
abbrev pub includes : ℕ → List ℕ → Bool
includes k [] = false
includes k (j ∷ js) = j == k || includes k js

pub All-In : {A : Type 0} (P : A → Type 0) (a : A) (l : List A) → All P l → In a l → P a
All-In P a [] h m = absurd m
All-In P a (x ∷ l) h (inl e) = subst P (sym e) h.0
All-In P a (x ∷ l) h (inr m) = All-In P a l h.1 m

pub All-map :
    {A : Type 0} (P Q : A → Type 0) → ((a : A) → P a → Q a) → (l : List A) → All P l → All Q l
All-map P Q f [] h = tt
All-map P Q f (x ∷ l) h = (f x h.0, All-map P Q f l h.1)

-- Where there is no first element, there is none.
pub In-first : {A : Type 0} (a : A) (l : List A) → first l ≡ none → In a l → ⊥
In-first a [] h m = m
In-first a (x ∷ l) h m = ground (arith, h)

pub In-is_empty : {A : Type 0} (a : A) (l : List A) → is_empty l ≡ true → In a l → ⊥
In-is_empty a [] h m = m
In-is_empty a (x ∷ l) h m = ground (arith, h)

pub includes_iff : (k : ℕ) (l : List ℕ) → (includes k l ≡ true) ↔ In k l
includes_iff k [] = (λ h. ground (arith, h), λ m. absurd m)
includes_iff k (j ∷ l) = (
  λ h. elim (Bool-cases (j == k)) [
    | inl own ↦ inl (sym ((==_iff j k).0 own))
    | inr other ↦ inr ((includes_iff k l).0 (ground (arith, other, h)))
  ],
  λ m. elim m [
    | inl e ↦ ground (arith, e, ==_iff j k)
    | inr m' ↦ ground (arith, (includes_iff k l).1 m')
  ],
)
