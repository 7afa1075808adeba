-- ===== src/Prelude/Bits.antt =====
-- The binary digits of a number, and what `&`, `|` and `~` do to them at every width.
use Prim.Native.Nat.{
  ℕ, zero, suc, ◌+◌, ◌-◌, ◌*◌, ◌/◌, ◌%◌, ◌^◌, ◌≤◌, ◌<◌, min, max, digits, bit_and, bit_or,
  bit_and-bitwise, bit_or-bitwise,
}
use mathlib.Core.Path.{◌≡◌, refl, ◌∙◌}
use mathlib.Core.Logic.{◌≢◌, inl, inr}
use mathlib.Core.Bool.{Bool, true, false, not, ◌&&◌, ◌||◌}
use native.Mathlib.Omega.{arith}
use native.Mathlib.Nat.{pow-succ', le_refl}
use lib_aspl.Prelude.Tests.{◌==◌, Bool-cases}

-- Digit `k` of `x`, the lowest first.
unfoldable pub bit : ℕ → ℕ → Bool
bit x zero = x % 2 == 1
bit x (suc k) = bit (x / 2) k

pub bit-zero : (k : ℕ) → bit 0 k ≡ false
unfolding bit
bit-zero zero = refl
bit-zero (suc k) = bit-zero k

bit-suc : (x k : ℕ) → bit x (suc k) ≡ bit (x / 2) k
unfolding bit
bit-suc x k = refl

ne-zero_of_bit : (x k : ℕ) → bit x k ≡ true → x ≢ 0
ne-zero_of_bit x k h e = cc (bit-zero k)

-- A number whose digits are all false is zero.
eq-zero_of_bits_fuel : (n x : ℕ) → x ≤ n → ((k : ℕ) → bit x k ≡ false) → x ≡ 0
unfolding bit
eq-zero_of_bits_fuel zero x h all = omega arith
eq-zero_of_bits_fuel (suc n) zero h all = refl
eq-zero_of_bits_fuel (suc n) (suc x) h all =
    ground (arith, all 0, eq-zero_of_bits_fuel n (suc x / 2) (omega arith) (λ k. all (suc k)))

eq-zero_of_bits : (x : ℕ) → ((k : ℕ) → bit x k ≡ false) → x ≡ 0
eq-zero_of_bits x = eq-zero_of_bits_fuel x x (le_refl x)

-- The digits of a sum of a double and a low digit.
bit-low_digit : (d r : ℕ) → r < 2 → bit (d * 2 + r) 0 ≡ (r == 1)
unfolding bit
bit-low_digit d r h = ground arith

bit-high_digits : (d r k : ℕ) → r < 2 → bit (d * 2 + r) (suc k) ≡ bit d k
unfolding bit
bit-high_digits d r k h = let e : (d * 2 + r) / 2 ≡ d = omega arith in rw e

-- A native operation works digit by digit, whatever the fuel of its recursion.
module _ (z : ℕ → ℕ) (f : ℕ → ℕ → ℕ) (F : Bool → Bool → Bool)
    (hz : (b k : ℕ) → bit (z b) k ≡ F false (bit b k)) (small : (a b : ℕ) → f (a % 2) (b % 2) < 2)
    (hf : (a b : ℕ) → (f (a % 2) (b % 2) == 1) ≡ F (a % 2 == 1) (b % 2 == 1)) where
  bit-digits : (k n a b : ℕ) → a ≤ n → bit (digits z f n a b) k ≡ F (bit a k) (bit b k)
  bit-digits k zero zero b h = rw (bit-zero k) (hz b k)
  bit-digits k zero (suc a) b h = absurd (omega arith)
  bit-digits k (suc n) zero b h = rw (bit-zero k) (hz b k)
  bit-digits zero (suc n) (suc a) b h =
      bit-low_digit (digits z f n (suc a / 2) (b / 2)) _ (small (suc a) b)
      ∙ unfold bit in hf (suc a) b
  bit-digits (suc k) (suc n) (suc a) b h =
      bit-high_digits (digits z f n (suc a / 2) (b / 2)) _ k (small (suc a) b)
      ∙ rw (bit-suc (suc a) k, bit-suc b k) (bit-digits k n (suc a / 2) (b / 2) (omega arith))

pub bit-bit_or : (a b k : ℕ) → bit (bit_or a b) k ≡ (bit a k || bit b k)
bit-bit_or a b k = rw (bit_or-bitwise a b) (
    bit-digits (λ y. y) max ◌||◌ (λ x j. refl) (λ x y. omega arith) (λ x y. ground arith) k a a b
      (le_refl a))

pub bit-bit_and : (a b k : ℕ) → bit (bit_and a b) k ≡ (bit a k && bit b k)
bit-bit_and a b k = rw (bit_and-bitwise a b) (
    bit-digits (λ y. 0) min ◌&&◌ (λ x j. bit-zero j) (λ x y. omega arith) (λ x y. ground arith) k a
      a b (le_refl a))

pub bit-two_pow : (b k : ℕ) → bit (2 ^ b) k ≡ (k == b)
unfolding bit
bit-two_pow zero zero = refl
bit-two_pow zero (suc k) = rw (bit-zero k) (ground arith)
bit-two_pow (suc b) zero = ground (arith, pow-succ' 2 b)
bit-two_pow (suc b) (suc k) =
    let e : 2 ^ suc b / 2 ≡ 2 ^ b = omega (arith, pow-succ' 2 b) in
    rw e (bit-two_pow b k ∙ ground arith)

-- `~x` of a word of `w` bits is `2 ^ w - 1 - x`.
pub bit-complement : (w x k : ℕ) → x < 2 ^ w → k < w → bit (2 ^ w - 1 - x) k ≡ not (bit x k)
unfolding bit
bit-complement zero x k h lt = elim lt [ ]
bit-complement (suc w) x zero h lt = ground (arith, pow-succ' 2 w)
bit-complement (suc w) x (suc k) h lt =
    let e : (2 ^ suc w - 1 - x) / 2 ≡ 2 ^ w - 1 - x / 2 = omega (arith, pow-succ' 2 w) in
    rw e (bit-complement w (x / 2) k (omega (arith, pow-succ' 2 w)) (omega arith))

bits_and-two_pow : (x b : ℕ) → bit x b ≡ false → (k : ℕ) → bit (bit_and x (2 ^ b)) k ≡ false
bits_and-two_pow x b clear k = ground (arith, bit-bit_and x (2 ^ b) k, bit-two_pow b k)

-- `x & (1 << b)` is zero exactly when digit `b` is not set.
pub bit_and-two_pow : (x b : ℕ) → (bit_and x (2 ^ b) == 0) ≡ not (bit x b)
bit_and-two_pow x b = elim (Bool-cases (bit x b)) [
  | inl is_set ↦
      ground (arith, bit-bit_and x (2 ^ b) b, bit-two_pow b b, ne-zero_of_bit (bit_and x (2 ^ b)) b)
  | inr clear ↦ ground (arith, eq-zero_of_bits _ (bits_and-two_pow x b clear))
]

-- A word of `w` bits has no digit from `w` on, and the other way round.
pub bit_of_lt : (w x k : ℕ) → x < 2 ^ w → w ≤ k → bit x k ≡ false
unfolding bit
bit_of_lt zero x k h le = let e : x ≡ 0 = omega arith in rw e (bit-zero k)
bit_of_lt (suc w) x zero h le = elim le [ ]
bit_of_lt (suc w) x (suc k) h le =
    bit_of_lt w (x / 2) k (omega (arith, pow-succ' 2 w)) (omega arith)

pub lt_of_bits : (w x : ℕ) → ((k : ℕ) → w ≤ k → bit x k ≡ false) → x < 2 ^ w
unfolding bit
lt_of_bits zero x all = omega (arith, eq-zero_of_bits x (λ k. all k (omega arith)))
lt_of_bits (suc w) x all =
    omega (arith, pow-succ' 2 w, lt_of_bits w (x / 2) (λ k le. all (suc k) (omega arith)))

pub bit_or-lt : (w a b : ℕ) → a < 2 ^ w → b < 2 ^ w → bit_or a b < 2 ^ w
bit_or-lt w a b ha hb =
    lt_of_bits w _
      λ k le. ground (arith, bit-bit_or a b k, bit_of_lt w a k ha le, bit_of_lt w b k hb le)

pub bit_and-lt : (w a b : ℕ) → a < 2 ^ w → bit_and a b < 2 ^ w
bit_and-lt w a b ha =
    lt_of_bits w _ λ k le. ground (arith, bit-bit_and a b k, bit_of_lt w a k ha le)

pub two_pow-lt : (w b : ℕ) → b < w → 2 ^ b < 2 ^ w
two_pow-lt w b h = lt_of_bits w _ λ k le. ground (arith, bit-two_pow b k)
