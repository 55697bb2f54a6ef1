-- ===== src/Base/Decimal.antt =====
-- Decimal numbers, as `{}` prints them in Rust, and their reading.
use avfork.Base.{
  ℕ, zero, suc, ◌+◌, ◌-◌, ◌*◌, ◌/◌, ◌%◌, ◌<◌, ◌≡◌, refl, ap, ◌∙◌, inl, inr, Bool, true, false, ◌&&◌,
  List, [], ◌∷◌, ◌++◌, arith, ltb, leb, Bool-cases,
}
use avfork.Base.Int.{ℤ, pos, negsuc}

-- The digits of `n` before `out`; a number has no more digits than the fuel `n + 1`.
unfoldable pub digits : ℕ → ℕ → List ℕ → List ℕ
digits zero n out = out
digits (suc fuel) n out = elim (ltb n 10) [
  | true ↦ (48 + n) ∷ out
  | false ↦ digits fuel (n / 10) ((48 + n % 10) ∷ out)
]

unfoldable pub decimal : ℕ → List ℕ
unfolding digits
decimal n = digits (suc n) n []

-- The pieces of a signed number: the sign is written on its own.
unfoldable pub signed_decimal : ℤ → List (List ℕ)
signed_decimal (pos n) = decimal n ∷ []
signed_decimal (negsuc n) = (45 ∷ []) ∷ decimal (suc n) ∷ []

abbrev pub is_digit : ℕ → Bool
is_digit c = leb 48 c && leb c 57

-- The number that starts a text, behind the digits of `n`, and what stands behind it.
abbrev pub read_number : ℕ → List ℕ → ℕ × List ℕ
read_number n [] = (n, [])
read_number n (c ∷ s) = elim (is_digit c) [
  | true ↦ read_number (n * 10 + (c - 48)) s
  | false ↦ (n, c ∷ s)
]

read_digit :
    (n d : ℕ) (s : List ℕ) → d < 10 → read_number n ((48 + d) ∷ s) ≡ read_number (n * 10 + d) s
read_digit n d s h = ground arith

digits_last :
    (fuel n : ℕ) (out : List ℕ) → ltb n 10 ≡ true → digits (suc fuel) n out ≡ (48 + n) ∷ out
unfolding digits
digits_last fuel n out last = rw (digits, last) refl

digits_more :
    (fuel n : ℕ) (out : List ℕ)
    → ltb n 10 ≡ false
    → digits (suc fuel) n out ≡ digits fuel (n / 10) ((48 + n % 10) ∷ out)
unfolding digits
digits_more fuel n out more = rw (digits, more) refl

read_number-digits :
    (fuel n : ℕ) (out s : List ℕ)
    → n < fuel
    → read_number 0 (digits fuel n out ++ s) ≡ read_number n (out ++ s)
read_number-digits zero n out s h = absurd (omega arith)
read_number-digits (suc fuel) n out s h = elim (Bool-cases (ltb n 10)) [
  | inl last ↦
      rw (digits_last fuel n out last) (
        read_digit 0 n (out ++ s) (ground arith) ∙ ap (λ m. read_number m (out ++ s)) (omega arith))
  | inr more ↦ rw (digits_more fuel n out more) (
      read_number-digits fuel (n / 10) ((48 + n % 10) ∷ out) s (ground arith)
      ∙ read_digit (n / 10) (n % 10) (out ++ s) (omega arith)
      ∙ ap (λ m. read_number m (out ++ s)) (omega arith))
]

-- A number is read back from its digits, up to what stands behind them.
pub read_number-decimal : (n : ℕ) (s : List ℕ) → read_number 0 (decimal n ++ s) ≡ read_number n s
unfolding decimal
read_number-decimal n s = read_number-digits (suc n) n [] s (omega arith)
