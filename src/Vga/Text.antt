-- ===== src/Vga/Text.antt =====
-- src/vga_buffer.rs: the writer of the 80 by 25 text screen. The buffer is a function from row and
-- column to the character there. The loops run over exactly the rows and columns of the array, so
-- only the accesses at `column_position` are checked.
pub mod Loops
pub mod Writing
use Prim.Native.Nat.{bit_or}
use molt_os.Prelude.{
  ℕ, zero, suc, ◌+◌, ◌-◌, ◌*◌, ◌%◌, Bool, true, false, ◌&&◌, ◌||◌, List, [], ◌∷◌, ◌==◌, ltb, leb,
  if◌then◌else◌, Checked, ok, panic, ◌>>=◌,
}

abbrev pub buffer_height : ℕ
buffer_height = 25

abbrev pub buffer_width : ℕ
buffer_width = 80

-- `Color`, with its discriminant.
pub data Color : Type 0 where
  black blue green cyan red magenta brown light_gray dark_gray light_blue light_green : Color
  light_cyan light_red pink yellow white : Color

unfoldable pub code : Color → ℕ
code black = 0
code blue = 1
code green = 2
code cyan = 3
code red = 4
code magenta = 5
code brown = 6
code light_gray = 7
code dark_gray = 8
code light_blue = 9
code light_green = 10
code light_cyan = 11
code light_red = 12
code pink = 13
code yellow = 14
code white = 15

-- `ColorCode::new`: `(bg as u8) << 4 | (fg as u8)`.
unfoldable pub color_code : Color → Color → ℕ
color_code fg bg = bit_or (code bg * 16 % 256) (code fg)

pub record ScreenChar : Type 0 where
  pub ascii_character : ℕ
  pub color : ℕ

abbrev pub Buffer : Type 0
Buffer = ℕ → ℕ → ScreenChar

pub record Writer : Type 0 where
  pub column_position : ℕ
  pub color : ℕ
  pub buffer : Buffer

-- `chars[row][col].write(ch)`.
abbrev pub put : Buffer → ℕ → ℕ → ScreenChar → Buffer
put b row col ch = λ r c. if r == row && c == col then ch else b r c

-- The same at a column that is checked.
abbrev pub put_checked : Buffer → ℕ → ℕ → ScreenChar → Checked Buffer
put_checked b row col ch = if ltb col buffer_width then ok (put b row col ch) else panic

abbrev pub blank : Writer → ScreenChar
blank w = record { ascii_character = b' '; color = w.color }

-- `for col in col..col + n { buffer.chars[row][col].write(ch); }`.
unfoldable pub fill_cols : ℕ → ℕ → ℕ → ScreenChar → Buffer → Buffer
fill_cols zero col row ch b = b
fill_cols (suc n) col row ch b = fill_cols n (col + 1) row ch (put b row col ch)

unfoldable pub clear_row : ℕ → Writer → Writer
clear_row row w = record w { buffer = fill_cols buffer_width 0 row (blank w) w.buffer }

-- The inner loop of `new_line`, over `n` columns from `col` on.
unfoldable pub copy_cols : ℕ → ℕ → ℕ → Buffer → Buffer
copy_cols zero col row b = b
copy_cols (suc n) col row b = copy_cols n (col + 1) row (put b (row - 1) col (b row col))

-- The outer loop, over `n` rows from `row` on.
unfoldable pub copy_rows : ℕ → ℕ → Buffer → Buffer
copy_rows zero row b = b
copy_rows (suc n) row b = copy_rows n (row + 1) (copy_cols buffer_width 0 row b)

unfoldable pub new_line : Writer → Writer
new_line w =
    let scrolled : Writer = record w { buffer = copy_rows (buffer_height - 1) 1 w.buffer } in
    record (clear_row (buffer_height - 1) scrolled) { column_position = 0 }

-- `for row in row..row + n { self.clear_row(row); }`.
unfoldable pub clear_rows : ℕ → ℕ → Writer → Writer
clear_rows zero row w = w
clear_rows (suc n) row w = clear_rows n (row + 1) (clear_row row w)

unfoldable pub clear_screen : Writer → Writer
clear_screen w = record (clear_rows buffer_height 0 w) { column_position = 0 }

unfoldable pub backspace : Writer → Checked Writer
backspace w =
    if ltb 0 w.column_position
    then (do
      let col = w.column_position - 1
      b ← put_checked w.buffer (buffer_height - 1) col (blank w)
      ok (record w { column_position = col; buffer = b }))
    else ok w

-- The end of `write_byte` on an ordinary byte: at `column_position` of the last row.
unfoldable pub place : ℕ → Writer → Checked Writer
place byte w = do
  b ←
      put_checked w.buffer (buffer_height - 1) w.column_position
        (record { ascii_character = byte; color = w.color })
  ok (record w { column_position = w.column_position + 1; buffer = b })

abbrev pub wrap : Writer → Writer
wrap w = if leb buffer_width w.column_position then new_line w else w

unfoldable pub write_byte : Writer → ℕ → Checked Writer
write_byte w byte =
    if byte == 10 then ok (new_line w) else if byte == 8 then backspace w else place byte (wrap w)

-- What `write_string` hands on of a byte.
abbrev pub shown : ℕ → ℕ
shown byte = if (leb 0x20 byte && leb byte 0x7e) || (byte == 10 || byte == 8) then byte else 0xfe

unfoldable pub write_string : Writer → List ℕ → Checked Writer
write_string w [] = ok w
write_string w (x ∷ xs) = write_byte w (shown x) >>= λ w'. write_string w' xs
