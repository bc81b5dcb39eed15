-- ===== src/Common/Text.antt =====
-- Texts as lists of codes, with the operations of JavaScript strings that the services use.
use Prim.Native.Nat.{ℕ, ◌+◌, ◌-◌, ◌*◌}
use mathlib.Core.Path.{◌≡◌, refl, ap}
use mathlib.Core.Logic.{inl, inr}
use mathlib.Core.Bool.{Bool, true, false, ◌&&◌, ◌||◌}
use mathlib.Core.Option.{Option, none, some}
use mathlib.Core.List.{List, [], ◌∷◌, ◌++◌, map}
use facilpay_api.Common.Tests.{leb, ◌==◌, if◌then◌else◌, Bool-cases}
use native.Mathlib.Omega.{arith}

abbrev pub Text : Type 0
Text = List ℕ

-- `a === b`
abbrev pub same_text : Text → Text → Bool
same_text [] [] = true
same_text [] (y ∷ b) = false
same_text (x ∷ a) [] = false
same_text (x ∷ a) (y ∷ b) = (x == y) && same_text a b

-- A code in front of the first part.
abbrev pub extend_first : ℕ → List Text → List Text
extend_first x [] = (x ∷ []) ∷ []
extend_first x (part ∷ parts) = (x ∷ part) ∷ parts

-- `text.split(c)`, for a separator of one code
unfoldable pub split : ℕ → Text → List Text
split c [] = [] ∷ []
split c (x ∷ text) = let rest = split c text in if x == c then [] ∷ rest else extend_first x rest

split-cons :
    (c : ℕ) (text : Text) → (part : Text) × (parts : List Text) × (split c text ≡ part ∷ parts)
unfolding split
split-cons c [] = ([], [], refl)
split-cons c (x ∷ text) =
    let (part, parts, e) = split-cons c text in
    elim (Bool-cases (x == c)) [
      | inl is_sep ↦ ([], split c text, rw (is_sep) refl)
      | inr other ↦ (x ∷ part, parts, rw (other, e) refl)
    ]

-- The parts of two texts with the separator between them.
pub split-append : (c : ℕ) (a b : Text) → split c (a ++ c ∷ b) ≡ split c a ++ split c b
unfolding split
split-append c [] b = ground arith
split-append c (x ∷ a) b =
    let (part, parts, e) = split-cons c a in
    elim (Bool-cases (x == c)) [
      | inl is_sep ↦ rw (is_sep) (ap (λ l. [] ∷ l) (split-append c a b))
      | inr other ↦ rw (other, split-append c a b, e) refl
    ]

-- The value of a digit: none for another code.
abbrev pub digit : ℕ → Option ℕ
digit x = if leb 48 x && leb x 57 then some (x - 48) else none

abbrev pub hex_digit : ℕ → Option ℕ
hex_digit x =
    if leb 48 x && leb x 57
    then some (x - 48)
    else if leb 97 x && leb x 102
    then some (x - 87)
    else none

-- The number that the digits in front of a text give, after those read before.
abbrev pub parse_from : (ℕ → Option ℕ) → ℕ → ℕ → Text → ℕ
parse_from read base acc [] = acc
parse_from read base acc (x ∷ text) = elim (read x) [
  | none ↦ acc
  | some d ↦ let next = acc * base + d in parse_from read base next text
]

-- `parseInt(text, base)` of a text without a sign or spaces in front: none is NaN
abbrev pub parse_int : (ℕ → Option ℕ) → ℕ → Text → Option ℕ
parse_int read base [] = none
parse_int read base (x ∷ text) = elim (read x) [
  | none ↦ none
  | some d ↦ some (parse_from read base d text)
]

-- `text.toLowerCase()`, for ASCII
abbrev pub to_lower_case : Text → Text
to_lower_case = map (λ x. if leb 65 x && leb x 90 then x + 32 else x)

abbrev pub is_space : ℕ → Bool
is_space x = (x == 32) || (leb 9 x && leb x 13)

abbrev pub trim_start : Text → Text
trim_start [] = []
trim_start (x ∷ text) = if is_space x then trim_start text else x ∷ text

abbrev pub trim_end : Text → Text
trim_end [] = []
trim_end (x ∷ text) = elim (trim_end text) [
  | [] ↦ if is_space x then [] else x ∷ []
  | y ∷ rest ↦ x ∷ y ∷ rest
]

-- `text.trim()`
abbrev pub trim : Text → Text
trim text = trim_end (trim_start text)

-- The text without a prefix, if it has it.
abbrev pub without_prefix : Text → Text → Option Text
without_prefix [] text = some text
without_prefix (p ∷ prefix) [] = none
without_prefix (p ∷ prefix) (x ∷ text) = if p == x then without_prefix prefix text else none
