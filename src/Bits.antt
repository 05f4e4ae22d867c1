-- ===== src/Bits.antt =====
-- Laws of the bit operations at variables: `^` is an abelian group of involutions and keeps the
-- width; `|` of disjoint fields and `&` with a low mask are arithmetic.
mod Step
use Prim.Native.Nat.{bit_xor-bitwise}
use Step.{or_lowest, and_lowest, xor_lowest}
use native.Mathlib.Nat.{pow-suc, one-le-pow}
use pigsydust.Prelude.{ℕ, zero, suc, ◌+◌, ◌-◌, ◌*◌, ◌/◌, ◌%◌, ◌^◌, ◌≤◌, ◌<◌}
use pigsydust.Prelude.{bit_and, bit_or, bit_xor, ◌≡◌, refl, ap, ap₂, ◌∙◌, sym, arith}

-- Each law is proved for all numbers up to a bound, which the halved arguments lower.
module _ where
  xor_comm_below : (n a b : ℕ) → a ≤ n → b ≤ n → bit_xor a b ≡ bit_xor b a
  xor_comm_below zero zero zero p q = refl
  xor_comm_below zero zero (suc b) p q = absurd (omega arith)
  xor_comm_below zero (suc a) b p q = absurd (omega arith)
  xor_comm_below (suc n) a b p q = omega (
    arith,
    xor_lowest a b,
    xor_lowest b a,
    xor_comm_below n (a / 2) (b / 2) (omega arith) (omega arith),
  )

  xor_self_below : (n a : ℕ) → a ≤ n → bit_xor a a ≡ 0
  xor_self_below zero zero p = refl
  xor_self_below zero (suc a) p = absurd (omega arith)
  xor_self_below (suc n) a p = omega (arith, xor_lowest a a, xor_self_below n (a / 2) (omega arith))

  xor_halves :
      (a b : ℕ)
      → (bit_xor a b / 2 ≡ bit_xor (a / 2) (b / 2)) × (bit_xor a b % 2 ≡ (a % 2 + b % 2) % 2)
  xor_halves a b = omega (arith, xor_lowest a b)

  xor_assoc_below :
      (n a b c : ℕ) → a ≤ n → b ≤ n → c ≤ n → bit_xor (bit_xor a b) c ≡ bit_xor a (bit_xor b c)
  xor_assoc_below zero zero zero zero p q r = refl
  xor_assoc_below zero zero zero (suc c) p q r = absurd (omega arith)
  xor_assoc_below zero zero (suc b) c p q r = absurd (omega arith)
  xor_assoc_below zero (suc a) b c p q r = absurd (omega arith)
  xor_assoc_below (suc n) a b c p q r = ground (
    arith,
    xor_lowest (bit_xor a b) c,
    xor_lowest a (bit_xor b c),
    xor_halves a b,
    xor_halves b c,
    xor_assoc_below n (a / 2) (b / 2) (c / 2) (omega arith) (omega arith) (omega arith),
  )

zero-xor : (a : ℕ) → bit_xor 0 a ≡ a
zero-xor a = bit_xor-bitwise 0 a

pub xor_comm : (a b : ℕ) → bit_xor a b ≡ bit_xor b a
xor_comm a b = xor_comm_below (a + b) a b (omega arith) (omega arith)

pub xor_self : (a : ℕ) → bit_xor a a ≡ 0
xor_self a = xor_self_below a a (omega arith)

pub xor_assoc : (a b c : ℕ) → bit_xor (bit_xor a b) c ≡ bit_xor a (bit_xor b c)
xor_assoc a b c = xor_assoc_below (a + b + c) a b c (omega arith) (omega arith) (omega arith)

pub xor-zero : (a : ℕ) → bit_xor a 0 ≡ a
xor-zero a = xor_comm a 0 ∙ zero-xor a

-- Applying the same mask twice gives the value back.
pub xor_cancel : (a b : ℕ) → bit_xor (bit_xor a b) b ≡ a
xor_cancel a b = xor_assoc a b b ∙ ap (bit_xor a) (xor_self b) ∙ xor-zero a

-- A mask is determined by the value and the masked value.
pub xor_injective : (a b c : ℕ) → bit_xor a c ≡ bit_xor b c → a ≡ b
xor_injective a b c e = sym (xor_cancel a c) ∙ ap (λ (t : ℕ). bit_xor t c) e ∙ xor_cancel b c

-- Two `k`-bit values have a `k`-bit exclusive or.
pub xor-lt-pow : (k a b : ℕ) → a < 2 ^ k → b < 2 ^ k → bit_xor a b < 2 ^ k
xor-lt-pow zero zero zero p q = omega arith
xor-lt-pow zero zero (suc b) p q = absurd (omega arith)
xor-lt-pow zero (suc a) b p q = absurd (omega arith)
xor-lt-pow (suc k) a b p q = omega (
  arith,
  pow-suc 2 k,
  xor_lowest a b,
  xor-lt-pow k (a / 2) (b / 2) (omega (arith, pow-suc 2 k)) (omega (arith, pow-suc 2 k)),
)

pub xor-lt-256 : (a b : ℕ) → a < 256 → b < 256 → bit_xor a b < 256
xor-lt-256 a b p q = xor-lt-pow 8 a b p q

or-zero_below : (n a : ℕ) → a ≤ n → bit_or a 0 ≡ a
or-zero_below zero zero p = refl
or-zero_below zero (suc a) p = absurd (omega arith)
or-zero_below (suc n) a p = omega (arith, or_lowest a 0, or-zero_below n (a / 2) (omega arith))

and-zero_below : (n a : ℕ) → a ≤ n → bit_and a 0 ≡ 0
and-zero_below zero zero p = refl
and-zero_below zero (suc a) p = absurd (omega arith)
and-zero_below (suc n) a p = omega (arith, and_lowest a 0, and-zero_below n (a / 2) (omega arith))

pub or-zero : (a : ℕ) → bit_or a 0 ≡ a
or-zero a = or-zero_below a a (omega arith)

pub and-zero : (a : ℕ) → bit_and a 0 ≡ 0
and-zero a = and-zero_below a a (omega arith)

shifted_field : (q k : ℕ) → q * 2 ^ suc k ≡ 2 * (q * 2 ^ k)
shifted_field q k = omega (arith, ap (λ (t : ℕ). q * t) (pow-suc 2 k))

-- `(q << k) | r` is a sum where `r` fits `k` bits.
pub or_shifted : (k q r : ℕ) → r < 2 ^ k → bit_or (q * 2 ^ k) r ≡ q * 2 ^ k + r
or_shifted zero q r fits = ground (arith, or-zero q)
or_shifted (suc k) q r fits = ground (
  arith,
  or_lowest (q * 2 ^ suc k) r,
  shifted_field q k,
  or_shifted k q (r / 2) (omega (arith, pow-suc 2 k)),
)

-- The low mask keeps the field below bit `k` and drops the one above.
and_split : (k hi lo : ℕ) → lo < 2 ^ k → bit_and (hi * 2 ^ k + lo) (2 ^ k - 1) ≡ lo
and_split zero hi lo fits = rw and-zero (omega arith)
and_split (suc k) hi lo fits = ground (
  arith,
  and_lowest (hi * 2 ^ suc k + lo) (2 ^ suc k - 1),
  shifted_field hi k,
  pow-suc 2 k,
  and_split k hi (lo / 2),
)

-- A mask of `k` low ones is the remainder by `2 ^ k`.
pub and_mask : (k a : ℕ) → bit_and a (2 ^ k - 1) ≡ a % 2 ^ k
and_mask k a = ground (arith, one-le-pow k 2, and_split k (a / 2 ^ k) (a % 2 ^ k))

-- A mask of one bit keeps that bit.
pub and_bit_split :
    (k hi b lo : ℕ)
    → b < 2
    → lo < 2 ^ k
    → bit_and (hi * 2 ^ suc k + (b * 2 ^ k + lo)) (2 ^ k) ≡ b * 2 ^ k
and_bit_split zero hi b lo hb hl = ground (arith, and_mask 1 (hi * 2 + (b + lo)))
and_bit_split (suc k) hi b lo hb hl = ground (
  arith,
  and_lowest (hi * 2 ^ suc (suc k) + (b * 2 ^ suc k + lo)) (2 ^ suc k),
  shifted_field hi (suc k),
  shifted_field b k,
  pow-suc 2 k,
  and_bit_split k hi b (lo / 2),
)
