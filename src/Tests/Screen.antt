-- ===== src/Tests/Screen.antt =====
-- The text screen at concrete inputs.
use molt_os.Prelude.{ℕ, ◌≡◌, List, [], ◌∷◌, ok, panic, Checked, refl}
use molt_os.Vga.Text.{Writer, write_string, write_byte, place, color_code, yellow, black}

-- The screen of `WRITER`, with the cursor at a column, and row `r` full of the character `r`.
abbrev screen : ℕ → Writer
screen column = record {
  column_position = column;
  color = color_code yellow black;
  buffer = λ r c. record { ascii_character = r; color = 14 };
}

abbrev hi : List ℕ
hi = b'h' ∷ b'i' ∷ []

-- The column, and the two cells.
abbrev written : Checked Writer → ℕ × ℕ × ℕ
written panic = (0, 0, 0)
written (ok w) =
    (w.column_position, (w.buffer 24 3).ascii_character, (w.buffer 24 4).ascii_character)

write_string-hi : written (write_string (screen 3) hi) ≡ (5, b'h', b'i')
unfolding write_string write_byte place
write_string-hi = refl
