-- ===== src/Common/Bits.antt =====
-- When the bitwise or, and the bitwise exclusive or, of two numbers is zero; and the bitwise and with
-- a block of ones.
use Prim.Native.Nat.{
  max, differ, digits, min, bit_and, bit_or, bit_xor, bit_and-bitwise, bit_or-bitwise,
  bit_xor-bitwise,
}
use Prim.Native.Nat.{ℕ, zero, suc, ◌+◌, ◌-◌, ◌*◌, ◌/◌, ◌%◌, ◌^◌, ◌≤◌, ◌<◌}
use mathlib.Core.Path.{◌≡◌, refl, sym, ap, ◌∙◌}
use mathlib.Core.Logic.{◌↔◌}
use native.Mathlib.Omega.{arith}
use native.Mathlib.Nat.{pow-suc, pow-succ', div-div-eq-div-mul, one-le-pow}

max_zero : (a b : ℕ) → max a b ≡ 0 → (a ≡ 0) × (b ≡ 0)
max_zero zero zero h = (refl, refl)
max_zero zero (suc b) h = absurd (omega (arith, h))
max_zero (suc a) zero h = absurd (omega (arith, h))
max_zero (suc a) (suc b) h = absurd (omega (arith, h))

or_digits_zero : (n a b : ℕ) → a ≤ n → digits (λ b. b) max n a b ≡ 0 → (a ≡ 0) × (b ≡ 0)
or_digits_zero zero zero b l h = (refl, h)
or_digits_zero zero (suc a) b l h = absurd (omega arith)
or_digits_zero (suc n) zero b l h = (refl, h)
or_digits_zero (suc n) (suc a) b l h =
    let low = max_zero (suc a % 2) (b % 2) (omega (arith, h)) in
    let high = or_digits_zero n (suc a / 2) (b / 2) (omega arith) (omega (arith, h)) in
    (omega (arith, low, high), omega (arith, low, high))

pub bit_or_zero : (a b : ℕ) → bit_or a b ≡ 0 → (a ≡ 0) × (b ≡ 0)
bit_or_zero a b h = or_digits_zero a a b (omega arith) (omega (arith, h, bit_or-bitwise a b))

differ_zero : (a b : ℕ) → differ a b ≡ 0 → a ≡ b
differ_zero zero b h = omega (arith, h)
differ_zero (suc a) zero h = h
differ_zero (suc a) (suc b) h = omega (arith, differ_zero a b h)

differ_self : (a : ℕ) → differ a a ≡ 0
differ_self zero = refl
differ_self (suc a) = differ_self a

xor_digits_zero : (n a b : ℕ) → a ≤ n → digits (λ b. b) differ n a b ≡ 0 → a ≡ b
xor_digits_zero zero zero b l h = omega (arith, h)
xor_digits_zero zero (suc a) b l h = absurd (omega arith)
xor_digits_zero (suc n) zero b l h = omega (arith, h)
xor_digits_zero (suc n) (suc a) b l h =
    let low = differ_zero (suc a % 2) (b % 2) (omega (arith, h)) in
    let high = xor_digits_zero n (suc a / 2) (b / 2) (omega arith) (omega (arith, h)) in
    omega (arith, low, high)

xor_digits_self : (n a : ℕ) → a ≤ n → digits (λ b. b) differ n a a ≡ 0
xor_digits_self zero zero l = refl
xor_digits_self zero (suc a) l = absurd (omega arith)
xor_digits_self (suc n) zero l = refl
xor_digits_self (suc n) (suc a) l =
    omega (arith, differ_self (suc a % 2), xor_digits_self n (suc a / 2) (omega arith))

pub bit_xor_zero : (a b : ℕ) → (bit_xor a b ≡ 0) ↔ (a ≡ b)
bit_xor_zero a b = (
  λ h. xor_digits_zero a a b (omega arith) (omega (arith, h, bit_xor-bitwise a b)),
  λ h. rw (← h) (omega (arith, bit_xor-bitwise a a, xor_digits_self a a (omega arith))),
)

-- More digits to go than a number has change nothing.
enough_digits :
    (n m a b : ℕ) → a ≤ n → a ≤ m → digits (λ b. 0) min n a b ≡ digits (λ b. 0) min m a b
enough_digits zero zero a b p q = refl
enough_digits zero (suc m) zero b p q = refl
enough_digits zero (suc m) (suc a) b p q = absurd (omega (arith, p))
enough_digits (suc n) zero zero b p q = refl
enough_digits (suc n) zero (suc a) b p q = absurd (omega (arith, q))
enough_digits (suc n) (suc m) zero b p q = refl
enough_digits (suc n) (suc m) (suc a) b p q =
    let shorter = enough_digits n m (suc a / 2) (b / 2) (omega arith) (omega arith) in
    ap (λ d. d * 2 + min (suc a % 2) (b % 2)) shorter

zero_and : (b : ℕ) → bit_and 0 b ≡ 0
zero_and b = bit_and-bitwise 0 b

-- The lowest digit apart from the others.
bit_and-halves : (a b : ℕ) → bit_and a b ≡ bit_and (a / 2) (b / 2) * 2 + min (a % 2) (b % 2)
bit_and-halves zero b = omega (arith, zero_and b, zero_and (b / 2))
bit_and-halves (suc a) b =
    bit_and-bitwise (suc a) b
    ∙ ap (λ d. d * 2 + min (suc a % 2) (b % 2))
        (enough_digits a (suc a / 2) (suc a / 2) (b / 2) (omega arith) (omega arith)
          ∙ sym (bit_and-bitwise (suc a / 2) (b / 2)))

double : (x k : ℕ) → x * 2 ^ suc k ≡ x * 2 ^ k * 2
double x k = ap (λ d. x * d) (pow-suc 2 k) ∙ omega arith

-- A mask that ends in zeros.
pub bit_and-shifted : (k a m : ℕ) → bit_and a (m * 2 ^ k) ≡ bit_and (a / 2 ^ k) m * 2 ^ k
bit_and-shifted zero a m =
    let whole : m * 2 ^ 0 ≡ m = omega arith in
    let all : a ≡ a / 2 ^ 0 = omega arith in
    let same = ap (bit_and a) whole ∙ ap (λ x. bit_and x m) all in omega (arith, same)
bit_and-shifted (suc k) a m =
    let mask = m * 2 ^ k in
    let half : mask * 2 / 2 ≡ mask = omega arith in
    let rest : a / 2 / 2 ^ k ≡ a / 2 ^ suc k =
      div-div-eq-div-mul a 2 (2 ^ k) ∙ ap (λ d. a / d) (sym (pow-succ' 2 k)) in
    let low : min (a % 2) (mask * 2 % 2) ≡ 0 = omega arith in
    let high : bit_and (a / 2) (mask * 2 / 2) ≡ bit_and (a / 2 ^ suc k) m * 2 ^ k =
      ap (bit_and (a / 2)) half
      ∙ bit_and-shifted k (a / 2) m
      ∙ ap (λ x. bit_and x m * 2 ^ k) rest in
    ap (bit_and a) (double m k)
    ∙ omega (arith, bit_and-halves a (mask * 2), low, high)
    ∙ sym (double (bit_and (a / 2 ^ suc k) m) k)

-- A mask of ones keeps what is below it.
pub bit_and-ones : (p x : ℕ) → x < 2 ^ p → bit_and x (2 ^ p - 1) ≡ x
bit_and-ones zero x h = let none_left : x ≡ 0 = omega (arith, h) in rw (none_left) refl
bit_and-ones (suc p) x h =
    let positive = one-le-pow p 2 (omega arith) in
    let half : (2 ^ suc p - 1) / 2 ≡ 2 ^ p - 1 = omega (arith, positive) in
    let low : min (x % 2) ((2 ^ suc p - 1) % 2) ≡ x % 2 = omega (arith, positive) in
    let high : bit_and (x / 2) ((2 ^ suc p - 1) / 2) ≡ x / 2 =
      ap (bit_and (x / 2)) half ∙ bit_and-ones p (x / 2) (omega (arith, h)) in
    omega (arith, bit_and-halves x (2 ^ suc p - 1), low, high)
