-- ===== src/Base/Bits.antt =====
-- Binary digits: the digit of a number at a place, and how `&`, `|`, `^` and the complement at a
-- width act on it.
use Prim.Native.Nat.{min, max, digits, bit_and-bitwise, bit_or-bitwise}
use native.Mathlib.Nat.{
  pow-suc, pow-succ', one-le-pow, div-add-mod', mod-lt, mod-eq_of_lt, add-mul-mod_self_right,
  mod-mod_of_dvd, dvd-mul_right,
}
use onix.Base.Tests.{◌==◌, if◌then◌else◌}
use Prim.Native.Nat.{ℕ, zero, suc, ◌+◌, ◌-◌, ◌*◌, ◌/◌, ◌%◌, ◌^◌, ◌≤◌, ◌<◌, bit_and, bit_or}
use mathlib.Core.Path.{◌≡◌, refl, ap}
use native.Mathlib.Omega.{arith}

-- The digit of `x` at place `k`, 0 or 1.
abbrev pub bit : ℕ → ℕ → ℕ
bit x zero = x % 2
bit x (suc k) = bit (x / 2) k

pub bit-lt : (x k : ℕ) → bit x k < 2
bit-lt x zero = omega arith
bit-lt x (suc k) = bit-lt (x / 2) k

-- More rounds than the number has digits change nothing.
digits-rounds :
    (z : ℕ → ℕ) (f : ℕ → ℕ → ℕ) (r s a b : ℕ) → a ≤ r → a ≤ s → digits z f r a b ≡ digits z f s a b
digits-rounds z f zero zero a b p q = refl
digits-rounds z f zero (suc s) zero b p q = refl
digits-rounds z f zero (suc s) (suc a) b p q = absurd (omega arith)
digits-rounds z f (suc r) zero zero b p q = refl
digits-rounds z f (suc r) zero (suc a) b p q = absurd (omega arith)
digits-rounds z f (suc r) (suc s) zero b p q = refl
digits-rounds z f (suc r) (suc s) (suc a) b p q =
    omega (arith, digits-rounds z f r s (suc a / 2) (b / 2) (omega arith) (omega arith))

and_split : (a b : ℕ) → bit_and a b ≡ bit_and (a / 2) (b / 2) * 2 + min (a % 2) (b % 2)
and_split zero b = omega (arith, bit_and-bitwise 0 b, bit_and-bitwise 0 (b / 2))
and_split (suc a) b = omega (
  arith,
  bit_and-bitwise (suc a) b,
  bit_and-bitwise (suc a / 2) (b / 2),
  digits-rounds (λ b. zero) min a (suc a / 2) (suc a / 2) (b / 2) (omega arith) (omega arith),
)

or_split : (a b : ℕ) → bit_or a b ≡ bit_or (a / 2) (b / 2) * 2 + max (a % 2) (b % 2)
or_split zero b = omega (arith, bit_or-bitwise 0 b, bit_or-bitwise 0 (b / 2))
or_split (suc a) b = omega (
  arith,
  bit_or-bitwise (suc a) b,
  bit_or-bitwise (suc a / 2) (b / 2),
  digits-rounds (λ b. b) max a (suc a / 2) (suc a / 2) (b / 2) (omega arith) (omega arith),
)

pub bit-bit_and : (k a b : ℕ) → bit (bit_and a b) k ≡ min (bit a k) (bit b k)
bit-bit_and zero a b = omega (arith, and_split a b)
bit-bit_and (suc k) a b =
    let half : bit_and a b / 2 ≡ bit_and (a / 2) (b / 2) = omega (arith, and_split a b) in
    rw half (bit-bit_and k (a / 2) (b / 2))

pub bit-bit_or : (k a b : ℕ) → bit (bit_or a b) k ≡ max (bit a k) (bit b k)
bit-bit_or zero a b = omega (arith, or_split a b)
bit-bit_or (suc k) a b =
    let half : bit_or a b / 2 ≡ bit_or (a / 2) (b / 2) = omega (arith, or_split a b) in
    rw half (bit-bit_or k (a / 2) (b / 2))

pub bit-zero : (k : ℕ) → bit 0 k ≡ 0
bit-zero zero = refl
bit-zero (suc k) = bit-zero k

pub pow_pos : (k : ℕ) → 0 < 2 ^ k
pow_pos k = one-le-pow k 2 (omega arith)

pow-half : (k : ℕ) → 2 ^ suc k / 2 ≡ 2 ^ k
pow-half k = omega (arith, pow-suc 2 k)

-- `1 << j` has the one digit `j`.
pub bit-pow : (j k : ℕ) → bit (2 ^ j) k ≡ (if j == k then 1 else 0)
bit-pow zero zero = refl
bit-pow zero (suc k) = ground (arith, bit-zero k)
bit-pow (suc j) zero = ground (arith, pow-suc 2 j)
bit-pow (suc j) (suc k) = rw (pow-half j) (ground (arith, bit-pow j k))

-- `x & (1 << k)` is the digit at its place.

and-zero_rounds : (r a : ℕ) → a ≤ r → bit_and a 0 ≡ 0
and-zero_rounds r zero h = refl
and-zero_rounds zero (suc a) h = absurd (omega arith)
and-zero_rounds (suc r) (suc a) h =
    omega (arith, and_split (suc a) 0, and-zero_rounds r (suc a / 2) (omega arith))

-- `x & (1 << k)` is the digit at its place.
pub bit_and-pow : (k x : ℕ) → bit_and x (2 ^ k) ≡ bit x k * 2 ^ k
bit_and-pow zero x = omega (arith, and_split x 1, and-zero_rounds (x / 2) (x / 2) (omega arith))
bit_and-pow (suc k) x =
    let ih : bit_and (x / 2) (2 ^ suc k / 2) ≡ bit (x / 2) k * 2 ^ k =
      rw (pow-half k) (bit_and-pow k (x / 2)) in
    omega
      (arith, and_split x (2 ^ suc k), pow-suc 2 k, ap (λ t. bit (x / 2) k * t) (pow-suc 2 k), ih)

-- The test `x & (1 << k)`.
digit-test : (d p : ℕ) → d < 2 → 0 < p → (d * p == 0) ≡ (d == 0)
digit-test zero p h q = ground arith
digit-test (suc zero) p h q = ground arith
digit-test (suc (suc d)) p h q = absurd (omega arith)

pub bit_and-pow_iff : (k x : ℕ) → (bit_and x (2 ^ k) == 0) ≡ (bit x k == 0)
bit_and-pow_iff k x = rw (bit_and-pow k x) (digit-test (bit x k) (2 ^ k) (bit-lt x k) (pow_pos k))

-- `~x` at `w` bits.
abbrev pub complement : ℕ → ℕ → ℕ
complement w x = 2 ^ w - 1 - x

pub bit-complement : (k w x : ℕ) → x < 2 ^ w → k < w → bit (complement w x) k ≡ 1 - bit x k
bit-complement k zero x h l = absurd (omega arith)
bit-complement zero (suc w) x h l = omega (arith, pow-suc 2 w)
bit-complement (suc k) (suc w) x h l =
    let half : complement (suc w) x / 2 ≡ complement w (x / 2) = omega (arith, pow-suc 2 w) in
    rw half (bit-complement k w (x / 2) (omega (arith, pow-suc 2 w)) (omega arith))

mod-half : (w x : ℕ) → x % 2 ^ suc w / 2 ≡ x / 2 % 2 ^ w
mod-half w x =
    let q = x / 2 ^ suc w in
    let r = x % 2 ^ suc w in
    let parts : x / 2 ≡ r / 2 + q * 2 ^ w =
      omega (arith, div-add-mod' x (2 ^ suc w), ap (λ t. q * t) (pow-suc 2 w)) in
    let small : r / 2 < 2 ^ w = omega (arith, pow-suc 2 w, pow_pos w, mod-lt x (pow_pos (suc w))) in
    rw (parts, add-mul-mod_self_right (r / 2) q (2 ^ w), mod-eq_of_lt small)

-- Cutting a number to `w` bits keeps the digits below place `w`.
pub bit-mod : (k w x : ℕ) → k < w → bit (x % 2 ^ w) k ≡ bit x k
bit-mod k zero x h = absurd (omega arith)
bit-mod zero (suc w) x h = rw (pow-succ' 2 w) (mod-mod_of_dvd 2 x (dvd-mul_right 2 (2 ^ w)))
bit-mod (suc k) (suc w) x h = rw (mod-half w x) (bit-mod k w (x / 2) (omega arith))
