-- ===== src/Base/Bits.antt =====
-- The bits of a flag word, and the law of `|` at each bit.
use Prim.Native.Nat.{max, digits, bit_or-bitwise}
use avfork.Base.{ℕ, zero, suc, ◌+◌, ◌*◌, ◌/◌, ◌%◌, ◌≤◌, ◌≡◌, refl, ◌∙◌, ap, arith, bit_or}

-- Bit `i` of `n`, counted from the lowest.
abbrev pub test_bit : ℕ → ℕ → ℕ
test_bit n zero = n % 2
test_bit n (suc i) = test_bit (n / 2) i

abbrev or_digits : ℕ → ℕ → ℕ → ℕ
or_digits n a b = digits (λ b. b) max n a b

or_digits_fuel : (n m a b : ℕ) → a ≤ n → a ≤ m → or_digits n a b ≡ or_digits m a b
or_digits_fuel zero zero a b p q = refl
or_digits_fuel zero (suc m) zero b p q = refl
or_digits_fuel zero (suc m) (suc a) b p q = absurd (omega arith)
or_digits_fuel (suc n) zero zero b p q = refl
or_digits_fuel (suc n) zero (suc a) b p q = absurd (omega arith)
or_digits_fuel (suc n) (suc m) zero b p q = refl
or_digits_fuel (suc n) (suc m) (suc a) b p q =
    omega (arith, or_digits_fuel n m (suc a / 2) (b / 2) (omega arith) (omega arith))

zero-bit_or : (b : ℕ) → bit_or 0 b ≡ b
zero-bit_or b = bit_or-bitwise 0 b

bit_or_step : (a b : ℕ) → bit_or a b ≡ bit_or (a / 2) (b / 2) * 2 + max (a % 2) (b % 2)
bit_or_step zero b = omega (arith, zero-bit_or b, zero-bit_or (b / 2))
bit_or_step (suc a) b = omega (
  arith,
  bit_or-bitwise (suc a) b,
  bit_or-bitwise (suc a / 2) (b / 2),
  or_digits_fuel a (suc a / 2) (suc a / 2) (b / 2) (omega arith) (omega arith),
)

bit_or-half : (a b : ℕ) → bit_or a b / 2 ≡ bit_or (a / 2) (b / 2)
bit_or-half a b = omega (arith, bit_or_step a b)

-- A bit of `a | b` is set when it is set in one of the two.
pub test_bit-bit_or : (a b i : ℕ) → test_bit (bit_or a b) i ≡ max (test_bit a i) (test_bit b i)
test_bit-bit_or a b zero = omega (arith, bit_or_step a b)
test_bit-bit_or a b (suc i) =
    ap (λ t. test_bit t i) (bit_or-half a b) ∙ test_bit-bit_or (a / 2) (b / 2) i

-- A word whose two lowest bits are clear leaves those of the other.
pub bit_or_mod4 : (a b : ℕ) → a % 4 ≡ 0 → bit_or a b % 4 ≡ b % 4
bit_or_mod4 a b h = omega (arith, test_bit-bit_or a b 0, test_bit-bit_or a b 1)

pub bit_or_mod4_right : (a b : ℕ) → b % 4 ≡ 0 → bit_or a b % 4 ≡ a % 4
bit_or_mod4_right a b h = omega (arith, test_bit-bit_or a b 0, test_bit-bit_or a b 1)
