-- ===== src/Prelude/Bits.antt =====
-- Bit operations as arithmetic: `bit_and` and `bit_or` at a split of both arguments into a high
-- and a low part, at every width, and the binary digits of a number.
use Prim.Native.Nat.{
  ℕ, zero, suc, ◌+◌, ◌-◌, ◌*◌, ◌/◌, ◌%◌, ◌^◌, ◌≤◌, ◌<◌, min, max, bit_and, bit_or, digits,
  bit_and-bitwise, bit_or-bitwise,
}
use mathlib.Core.Path.{◌≡◌, refl, ap}
use native.Mathlib.Nat.{pow-suc, le_refl}
use native.Mathlib.Omega.{arith}

-- More fuel than the first number gives the same digits.
module _ (z : ℕ → ℕ) (f : ℕ → ℕ → ℕ) where
  digits_enough : (k l a b : ℕ) → a ≤ k → a ≤ l → digits z f k a b ≡ digits z f l a b
  digits_enough zero zero a b p q = refl
  digits_enough zero (suc l) zero b p q = refl
  digits_enough zero (suc l) (suc a) b p q = absurd (omega arith)
  digits_enough (suc k) zero zero b p q = refl
  digits_enough (suc k) zero (suc a) b p q = absurd (omega arith)
  digits_enough (suc k) (suc l) zero b p q = refl
  digits_enough (suc k) (suc l) (suc a) b p q =
      omega (arith, digits_enough k l (suc a / 2) (b / 2) (omega arith) (omega arith))

bit_and_halves : (a b : ℕ) → bit_and a b ≡ bit_and (a / 2) (b / 2) * 2 + min (a % 2) (b % 2)
bit_and_halves zero b = omega (arith, bit_and-bitwise 0 b, bit_and-bitwise 0 (b / 2))
bit_and_halves (suc a) b = omega (
  arith,
  bit_and-bitwise (suc a) b,
  bit_and-bitwise (suc a / 2) (b / 2),
  digits_enough (λ _. 0) min a (suc a / 2) (suc a / 2) (b / 2) (omega arith) (le_refl _),
)

bit_or_halves : (a b : ℕ) → bit_or a b ≡ bit_or (a / 2) (b / 2) * 2 + max (a % 2) (b % 2)
bit_or_halves zero b = omega (arith, bit_or-bitwise 0 b, bit_or-bitwise 0 (b / 2))
bit_or_halves (suc a) b = omega (
  arith,
  bit_or-bitwise (suc a) b,
  bit_or-bitwise (suc a / 2) (b / 2),
  digits_enough (λ y. y) max a (suc a / 2) (suc a / 2) (b / 2) (omega arith) (le_refl _),
)

mul-pow-suc : (q k : ℕ) → q * 2 ^ suc k ≡ 2 * (q * 2 ^ k)
mul-pow-suc q k = omega (arith, ap (λ (t : ℕ). q * t) (pow-suc 2 k))

-- `&` and `|` work on the high parts and on the low parts by themselves.
pub bit_and_split :
    (k a b r s : ℕ)
    → r < 2 ^ k
    → s < 2 ^ k
    → bit_and (a * 2 ^ k + r) (b * 2 ^ k + s) ≡ bit_and a b * 2 ^ k + bit_and r s
bit_and_split zero a b r s hr hs =
    let er : r ≡ 0 = omega arith in
    let es : s ≡ 0 = omega arith in
    let ea : a * 1 + 0 ≡ a = omega arith in
    let eb : b * 1 + 0 ≡ b = omega arith in rw (er, es, ea, eb) (omega arith)
bit_and_split (suc k) a b r s hr hs = ground (
  arith,
  bit_and_halves (a * 2 ^ suc k + r) (b * 2 ^ suc k + s),
  bit_and_halves r s,
  mul-pow-suc a k,
  mul-pow-suc b k,
  mul-pow-suc (bit_and a b) k,
  pow-suc 2 k,
  bit_and_split k a b (r / 2) (s / 2) (omega (arith, pow-suc 2 k)) (omega (arith, pow-suc 2 k)),
)

pub bit_or_split :
    (k a b r s : ℕ)
    → r < 2 ^ k
    → s < 2 ^ k
    → bit_or (a * 2 ^ k + r) (b * 2 ^ k + s) ≡ bit_or a b * 2 ^ k + bit_or r s
bit_or_split zero a b r s hr hs =
    let er : r ≡ 0 = omega arith in
    let es : s ≡ 0 = omega arith in
    let ea : a * 1 + 0 ≡ a = omega arith in
    let eb : b * 1 + 0 ≡ b = omega arith in rw (er, es, ea, eb) (omega arith)
bit_or_split (suc k) a b r s hr hs = ground (
  arith,
  bit_or_halves (a * 2 ^ suc k + r) (b * 2 ^ suc k + s),
  bit_or_halves r s,
  mul-pow-suc a k,
  mul-pow-suc b k,
  mul-pow-suc (bit_or a b) k,
  pow-suc 2 k,
  bit_or_split k a b (r / 2) (s / 2) (omega (arith, pow-suc 2 k)) (omega (arith, pow-suc 2 k)),
)

pub bit_and-zero : (k a : ℕ) → a < 2 ^ k → bit_and a 0 ≡ 0
bit_and-zero zero a h = let e : a ≡ 0 = omega arith in rw e
bit_and-zero (suc k) a h =
    omega (arith, bit_and_halves a 0, bit_and-zero k (a / 2) (omega (arith, pow-suc 2 k)))

pub bit_or-zero : (k a : ℕ) → a < 2 ^ k → bit_or a 0 ≡ a
bit_or-zero zero a h = let e : a ≡ 0 = omega arith in rw e
bit_or-zero (suc k) a h =
    omega (arith, bit_or_halves a 0, bit_or-zero k (a / 2) (omega (arith, pow-suc 2 k)))

pub zero-bit_or : (b : ℕ) → bit_or 0 b ≡ b
zero-bit_or b = bit_or-bitwise 0 b

-- A mask of `k` ones keeps a number below 2 ^ k.
pub bit_and_ones : (k a : ℕ) → a < 2 ^ k → bit_and a (2 ^ k - 1) ≡ a
bit_and_ones zero a h = let e : a ≡ 0 = omega arith in rw e
bit_and_ones (suc k) a h = ground (
  arith,
  bit_and_halves a (2 ^ suc k - 1),
  pow-suc 2 k,
  bit_and_ones k (a / 2) (omega (arith, pow-suc 2 k)),
)

lt-pow : (a : ℕ) → a < 2 ^ a
lt-pow zero = omega arith
lt-pow (suc a) = omega (arith, lt-pow a, pow-suc 2 a)

pub bit_and-one : (a : ℕ) → bit_and a 1 ≡ a % 2
bit_and-one a = omega (arith, bit_and_halves a 1, bit_and-zero (a / 2) (a / 2) (lt-pow (a / 2)))
