-- ===== src/Base/Bits.antt =====
-- The bits of a number: the lowest digit of `|`, `&` and `^`, and `test_bit` of each.
use Prim.Native.Nat.{ℕ, zero, suc, ◌+◌, ◌*◌, ◌/◌, ◌%◌, ◌^◌, ◌≤◌, ◌<◌, min, max}
use Prim.Native.Nat.{bit_and, bit_or, bit_xor, digits, bitwise, differ}
use Prim.Native.Nat.{bit_and-bitwise, bit_or-bitwise, bit_xor-bitwise}
use mathlib.Core.Path.{◌≡◌, refl, sym, ap, ◌∙◌}
use mathlib.Core.Logic.{◌≢◌}
use mathlib.Core.Bool.{Bool, true, false, ◌&&◌, ◌||◌}
use native.Mathlib.Nat.{le_trans, div-one, div_self, div-eq_of_lt, pow-succ', div-div-eq-div-mul}
use native.Mathlib.Nat.{one-le-pow, pow-le-pow_right, zero-add, suc-add, mul-div_cancel_left}
use native.Mathlib.Omega.{arith}
use ostiole.Base.Tests.{◌==◌, differs}

module _ (tail : ℕ → ℕ) (join : ℕ → ℕ → ℕ) where
  -- Two amounts of fuel that both reach the left number give one result.
  spare_fuel : (x i j y : ℕ) → x ≤ i → x ≤ j → digits tail join i x y ≡ digits tail join j x y
  spare_fuel zero zero zero y l r = refl
  spare_fuel zero zero (suc j) y l r = refl
  spare_fuel zero (suc i) zero y l r = refl
  spare_fuel zero (suc i) (suc j) y l r = refl
  spare_fuel (suc x) zero j y l r = absurd (omega arith)
  spare_fuel (suc x) (suc i) zero y l r = absurd (omega arith)
  spare_fuel (suc x) (suc i) (suc j) y l r =
      let halves = spare_fuel (suc x / 2) i j (y / 2) (omega arith) (omega arith) in rw halves

  -- The lowest digit of an operation that works digit by digit.
  lowest_digit :
      (op : ℕ → ℕ → ℕ)
      → ((x y : ℕ) → op x y ≡ bitwise tail join x y)
      → ((y : ℕ) → tail y ≡ tail (y / 2) * 2 + join 0 (y % 2))
      → (x y : ℕ) → op x y ≡ op (x / 2) (y / 2) * 2 + join (x % 2) (y % 2)
  lowest_digit op means rest zero y = rw (means zero y, means 0 (y / 2)) (rest y)
  lowest_digit op means rest (suc x) y =
      let halves = spare_fuel (suc x / 2) x (suc x / 2) (y / 2) (omega arith) (omega arith) in
      rw (means (suc x) y, means (suc x / 2) (y / 2)) (omega (arith, halves))

pub bit_xor_step : (x y : ℕ) → bit_xor x y ≡ bit_xor (x / 2) (y / 2) * 2 + differ (x % 2) (y % 2)
bit_xor_step = lowest_digit (λ y. y) differ bit_xor (λ x y. simp bit_xor-bitwise) (λ y. omega arith)

pub bit_and_step : (x y : ℕ) → bit_and x y ≡ bit_and (x / 2) (y / 2) * 2 + min (x % 2) (y % 2)
bit_and_step = lowest_digit (λ y. 0) min bit_and (λ x y. simp bit_and-bitwise) (λ y. omega arith)

pub bit_or_step : (x y : ℕ) → bit_or x y ≡ bit_or (x / 2) (y / 2) * 2 + max (x % 2) (y % 2)
bit_or_step = lowest_digit (λ y. y) max bit_or (λ x y. simp bit_or-bitwise) (λ y. omega arith)

abbrev pub odd : ℕ → Bool
odd n = n % 2 == 1

-- Bit `k` of a number, the Go expression `n >> k & 1 != 0`.
unfoldable pub test_bit : ℕ → ℕ → Bool
test_bit n k = odd (n / 2 ^ k)

pub test_bit-zero : (n : ℕ) → test_bit n 0 ≡ odd n
unfolding test_bit
test_bit-zero n = rw div-one

pub test_bit-suc : (n k : ℕ) → test_bit n (suc k) ≡ test_bit (n / 2) k
unfolding test_bit
test_bit-suc n k = rw (pow-succ', div-div-eq-div-mul n 2 (2 ^ k))

pub test_bit-bit_or : (k a b : ℕ) → test_bit (bit_or a b) k ≡ (test_bit a k || test_bit b k)
test_bit-bit_or zero a b = rw (test_bit-zero, test_bit-zero a, test_bit-zero b) (bit_or_odd)
  where
    bit_or_odd : odd (bit_or a b) ≡ (odd a || odd b)
    bit_or_odd = ground (arith, bit_or_step a b)
test_bit-bit_or (suc k) a b =
    rw (test_bit-suc, test_bit-suc a k, test_bit-suc b k)
      (ap (λ x. test_bit x k) (omega (arith, bit_or_step a b)) ∙ test_bit-bit_or k (a / 2) (b / 2))

pub test_bit-bit_and : (k a b : ℕ) → test_bit (bit_and a b) k ≡ (test_bit a k && test_bit b k)
test_bit-bit_and zero a b =
    rw (test_bit-zero (bit_and a b), test_bit-zero a, test_bit-zero b)
      (ground (arith, bit_and_step a b))
test_bit-bit_and (suc k) a b =
    rw (test_bit-suc (bit_and a b) k, test_bit-suc a k, test_bit-suc b k)
      (ap (λ x. test_bit x k) (omega (arith, bit_and_step a b))
        ∙ test_bit-bit_and k (a / 2) (b / 2))

odd-bit_xor : (a b : ℕ) → odd (bit_xor a b) ≡ differs (odd a) (odd b)
odd-bit_xor a b = ground (arith, bit_xor_step a b)

differ-lt : (a b : ℕ) → a < 2 → b < 2 → differ a b < 2
differ-lt zero b h k = k
differ-lt (suc zero) zero h k = h
differ-lt (suc zero) (suc zero) h k = omega arith
differ-lt (suc zero) (suc (suc b)) h k = absurd (omega arith)
differ-lt (suc (suc a)) b h k = absurd (omega arith)

pub test_bit-bit_xor :
    (k a b : ℕ) → test_bit (bit_xor a b) k ≡ differs (test_bit a k) (test_bit b k)
test_bit-bit_xor zero a b =
    rw (test_bit-zero (bit_xor a b), test_bit-zero a, test_bit-zero b) (odd-bit_xor a b)
test_bit-bit_xor (suc k) a b =
    rw (test_bit-suc (bit_xor a b) k, test_bit-suc a k, test_bit-suc b k)
      (ap (λ x. test_bit x k)
          (omega (arith, bit_xor_step a b, differ-lt (a % 2) (b % 2) (omega arith) (omega arith)))
        ∙ test_bit-bit_xor k (a / 2) (b / 2))

pub test_bit-div : (n j k : ℕ) → test_bit (n / 2 ^ j) k ≡ test_bit n (j + k)
test_bit-div n zero k = rw (div-one n, zero-add k) refl
test_bit-div n (suc j) k =
    rw (pow-succ', ← div-div-eq-div-mul n 2 (2 ^ j), test_bit-div (n / 2) j k, suc-add)
      (sym (test_bit-suc n (j + k)))

-- A number below `2 ^ n` has no bit from `n` on.
pub test_bit_high : (n a k : ℕ) → a < 2 ^ n → n ≤ k → test_bit a k ≡ false
unfolding test_bit
test_bit_high n a k h le = rw (div-eq_of_lt (le_trans h (pow-le-pow_right (omega arith) le)))

-- The bits determine the number.
test_bit_ext_fuel : (n a b : ℕ) → a ≤ n → b ≤ n → ((k : ℕ) → test_bit a k ≡ test_bit b k) → a ≡ b
test_bit_ext_fuel zero a b p q h = omega arith
test_bit_ext_fuel (suc n) a b p q h = ground (
  arith,
  test_bit_ext_fuel n (a / 2) (b / 2) (omega arith) (omega arith)
      (λ k. sym (test_bit-suc a k) ∙ h (suc k) ∙ test_bit-suc b k),
  sym (test_bit-zero a) ∙ h 0 ∙ test_bit-zero b,
)

pub test_bit_ext : (a b : ℕ) → ((k : ℕ) → test_bit a k ≡ test_bit b k) → a ≡ b
test_bit_ext a b h = test_bit_ext_fuel (a + b) a b (omega arith) (omega arith) h

pub test_bit-pow_self : (k : ℕ) → test_bit (2 ^ k) k ≡ true
unfolding test_bit
test_bit-pow_self k = rw (div_self (one-le-pow k 2 (omega arith)))

two_pos : 0 < 2
two_pos = omega arith

pub test_bit-pow_ne : (k j : ℕ) → k ≢ j → test_bit (2 ^ k) j ≡ false
test_bit-pow_ne zero zero h = absurd (h refl)
test_bit-pow_ne zero (suc j) h = test_bit_high 1 1 (suc j) (omega arith) (omega arith)
test_bit-pow_ne (suc k) zero h = rw (test_bit-zero (2 ^ suc k), pow-succ') (ground arith)
test_bit-pow_ne (suc k) (suc j) h =
    rw (test_bit-suc (2 ^ suc k) j, pow-succ', mul-div_cancel_left (2 ^ k) two_pos)
      (test_bit-pow_ne k j (λ e. h (ap suc e)))

pub test_bit-of_zero : (k : ℕ) → test_bit 0 k ≡ false
test_bit-of_zero k = test_bit_high 0 0 k (omega arith) (omega arith)
