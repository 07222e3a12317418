-- ===== src/Vga/Format.antt =====
-- How `core::fmt` writes numbers, for the code's `print!` and `println!`.
use molt_os.Prelude.{
  ℕ, zero, suc, ◌+◌, ◌-◌, ◌/◌, ◌%◌, ltb, if◌then◌else◌, List, [], ◌∷◌, ◌++◌, length, replicate,
}

-- The decimal digits, of at most `fuel` of them; 20 are enough for a 64-bit word.
unfoldable pub digits_from : ℕ → ℕ → List ℕ
digits_from zero n = []
digits_from (suc fuel) n =
    let rest = digits_from fuel (n / 10) in
    if ltb n 10 then (48 + n) ∷ [] else rest ++ ((48 + n % 10) ∷ [])

abbrev pub decimal : ℕ → List ℕ
decimal n = digits_from 20 n

abbrev pub hex_digit : ℕ → ℕ
hex_digit d = if ltb d 10 then 48 + d else 87 + d

-- The last `n` hexadecimal digits; `{:016x}` of a 64-bit word is 16 of them.
unfoldable pub hex_digits : ℕ → ℕ → List ℕ
hex_digits zero a = []
hex_digits (suc n) a = hex_digits n (a / 16) ++ (hex_digit (a % 16) ∷ [])

-- `{:>width}`.
abbrev pub align_right : ℕ → List ℕ → List ℕ
align_right width text = replicate (width - length text) 32 ++ text
