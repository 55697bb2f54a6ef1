-- ===== src/Error/Utf8.antt =====
-- The check of `CStr::to_str`: that the bytes are well-formed UTF-8.
use avfork.Base.{
  ℕ, zero, suc, Bool, false, ◌&&◌, List, [], ◌∷◌, Option, none, some, leb, if◌then◌else◌,
}

-- How many bytes of the character are still to come, and the range of the next one.
pub record Utf8State : Type 0 where
  pub left : ℕ
  pub low : ℕ
  pub high : ℕ

abbrev within : ℕ → ℕ → ℕ → Bool
within low high b = leb low b && leb b high

abbrev boundary : Utf8State
boundary = record { left = 0; low = 0; high = 0 }

abbrev expect_bytes : ℕ → ℕ → ℕ → Option Utf8State
expect_bytes n low high = some (record { left = n; low = low; high = high })

-- The first byte of a character.
abbrev lead_byte : ℕ → Option Utf8State
lead_byte b =
    if leb b 0x7f
    then some boundary
    else if within 0xc2 0xdf b
    then expect_bytes 1 0x80 0xbf
    else if within 0xe0 0xe0 b
    then expect_bytes 2 0xa0 0xbf
    else if within 0xed 0xed b
    then expect_bytes 2 0x80 0x9f
    else if within 0xe1 0xef b
    then expect_bytes 2 0x80 0xbf
    else if within 0xf0 0xf0 b
    then expect_bytes 3 0x90 0xbf
    else if within 0xf1 0xf3 b
    then expect_bytes 3 0x80 0xbf
    else if within 0xf4 0xf4 b
    then expect_bytes 3 0x80 0x8f
    else none

abbrev utf8_step : ℕ → ℕ → ℕ → ℕ → Option Utf8State
utf8_step zero low high b = lead_byte b
utf8_step (suc n) low high b = if within low high b then expect_bytes n 0x80 0xbf else none

unfoldable pub utf8_from : Utf8State → List ℕ → Bool
utf8_from s [] = leb s.left 0
utf8_from s (b ∷ bs) = elim (utf8_step s.left s.low s.high b) [
  | none ↦ false
  | some s' ↦ utf8_from s' bs
]

unfoldable pub is_utf8 : List ℕ → Bool
unfolding utf8_from
is_utf8 bs = utf8_from boundary bs
