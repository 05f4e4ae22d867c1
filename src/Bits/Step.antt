-- ===== src/Bits/Step.antt =====
-- The native operations mean a recursion on binary digits with fuel; here the fuel is dropped, and
-- each operation has one equation for the lowest digit.
use Prim.Native.Nat.{min, max, digits, bitwise, differ}
use Prim.Native.Nat.{bit_and-bitwise, bit_or-bitwise, bit_xor-bitwise}
use pigsydust.Prelude.{ℕ, zero, suc, ◌+◌, ◌-◌, ◌*◌, ◌/◌, ◌%◌, ◌≤◌, bit_and, bit_or, bit_xor}
use pigsydust.Prelude.{◌<◌, ◌≡◌, refl, ap, ◌∙◌, arith}

module _ (z : ℕ → ℕ) (f : ℕ → ℕ → ℕ) where
  -- One more unit of fuel than the first number changes nothing, so any surplus does not.
  one_more : (n x y : ℕ) → x ≤ n → digits z f (suc n) x y ≡ digits z f n x y
  one_more zero zero y h = refl
  one_more (suc n) zero y h = refl
  one_more zero (suc x) y h = absurd (omega arith)
  one_more (suc n) (suc x) y h = rw (one_more n (suc x / 2) (y / 2) (omega arith))

  surplus : (k n m x y : ℕ) → m ≡ k + n → x ≤ n → digits z f m x y ≡ digits z f n x y
  surplus zero n m x y e h = ap (λ (t : ℕ). digits z f t x y) {x = m} {y = n} (omega arith)
  surplus (suc k) n m x y e h =
      ap (λ (t : ℕ). digits z f t x y) {x = m} {y = suc (k + n)} (omega arith)
      ∙ one_more (k + n) x y (omega arith)
      ∙ surplus k n (k + n) x y refl h

  bitwise_lowest :
      (x y : ℕ)
      → bitwise z f (suc x) y ≡ bitwise z f (suc x / 2) (y / 2) * 2 + f (suc x % 2) (y % 2)
  bitwise_lowest x y =
      ap (λ (t : ℕ). t * 2 + f (suc x % 2) (y % 2))
        (surplus (x - suc x / 2) (suc x / 2) x (suc x / 2) (y / 2) (omega arith) (omega arith))

pub or_lowest : (x y : ℕ) → bit_or x y ≡ bit_or (x / 2) (y / 2) * 2 + max (x % 2) (y % 2)
or_lowest zero y = simp bit_or-bitwise (omega arith)
or_lowest (suc x) y = simp bit_or-bitwise (bitwise_lowest (λ t. t) max x y)

pub and_lowest : (x y : ℕ) → bit_and x y ≡ bit_and (x / 2) (y / 2) * 2 + min (x % 2) (y % 2)
and_lowest zero y = simp bit_and-bitwise (omega arith)
and_lowest (suc x) y = simp bit_and-bitwise (bitwise_lowest (λ t. 0) min x y)

differ_digits : (x y : ℕ) → x < 2 → y < 2 → differ x y ≡ (x + y) % 2
differ_digits zero y p q = omega arith
differ_digits (suc zero) zero p q = refl
differ_digits (suc zero) (suc zero) p q = refl
differ_digits (suc zero) (suc (suc y)) p q = absurd (omega arith)
differ_digits (suc (suc x)) y p q = absurd (omega arith)

-- The exclusive or of two binary digits is their sum modulo 2.
pub xor_lowest : (a b : ℕ) → bit_xor a b ≡ bit_xor (a / 2) (b / 2) * 2 + (a % 2 + b % 2) % 2
xor_lowest zero b = simp bit_xor-bitwise (omega arith)
xor_lowest (suc a) b = simp bit_xor-bitwise (
    bitwise_lowest (λ y. y) differ a b
    ∙ ap (λ (t : ℕ). bitwise (λ y. y) differ (suc a / 2) (b / 2) * 2 + t)
        (differ_digits (suc a % 2) (b % 2) (omega arith) (omega arith)))
