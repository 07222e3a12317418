-- ===== src/Vga/Text/Loops.antt =====
-- What the loops of vga_buffer.rs leave in the buffer.
use molt_os.Prelude.{
  ℕ, zero, suc, ◌+◌, ◌-◌, ◌<◌, ◌≡◌, refl, ◌&&◌, ◌==◌, ltb, leb, if◌then◌else◌, arith,
}
use molt_os.Vga.Text.{
  Buffer, ScreenChar, Writer, put, blank, fill_cols, clear_row, copy_cols, copy_rows, new_line,
  clear_rows, clear_screen, buffer_width, buffer_height,
}

pub fill_cols_lem :
    (n col row : ℕ) (ch : ScreenChar) (b : Buffer) (r c : ℕ)
    → fill_cols n col row ch b r c
      ≡ (if r == row && (leb col c && ltb c (col + n)) then ch else b r c)
unfolding fill_cols
fill_cols_lem zero col row ch b r c = ground arith
fill_cols_lem (suc n) col row ch b r c =
    ground (arith, fill_cols_lem n (col + 1) row ch (put b row col ch) r c)

pub copy_cols_lem :
    (n col row : ℕ) (b : Buffer) (r c : ℕ)
    → 0 < row
    → copy_cols n col row b r c
      ≡ (if r == row - 1 && (leb col c && ltb c (col + n)) then b row c else b r c)
unfolding copy_cols
copy_cols_lem zero col row b r c h = ground arith
copy_cols_lem (suc n) col row b r c h =
    ground (arith, copy_cols_lem n (col + 1) row (put b (row - 1) col (b row col)) r c h)

-- The rows above `row - 1 + n` and from `row - 1` on move up by one.
pub copy_rows_lem :
    (n row : ℕ) (b : Buffer) (r c : ℕ)
    → 0 < row
    → c < buffer_width
    → copy_rows n row b r c
      ≡ (if leb row (r + 1) && ltb (r + 1) (row + n) then b (r + 1) c else b r c)
unfolding copy_rows
copy_rows_lem zero row b r c h k = ground arith
copy_rows_lem (suc n) row b r c h k = ground (
  arith,
  copy_rows_lem n (row + 1) (copy_cols buffer_width 0 row b) r c (omega arith) k,
  copy_cols_lem buffer_width 0 row b r c h,
  copy_cols_lem buffer_width 0 row b (r + 1) c h,
)

-- A new line scrolls the screen: each row takes the text of the row below, the last is blank, and
-- the cursor is at its start.
pub new_line-scrolls :
    (w : Writer) (r c : ℕ)
    → r < buffer_height
    → c < buffer_width
    → ((new_line w).buffer r c ≡ (if r == buffer_height - 1 then blank w else w.buffer (r + 1) c))
      × ((new_line w).column_position ≡ 0)
      × ((new_line w).color ≡ w.color)
unfolding new_line clear_row
new_line-scrolls w r c h k = (
  ground (
    arith,
    fill_cols_lem buffer_width 0 (buffer_height - 1) (blank w)
        (copy_rows (buffer_height - 1) 1 w.buffer) r c,
    copy_rows_lem (buffer_height - 1) 1 w.buffer r c (omega arith) k,
  ),
  refl,
  refl,
)

clear_rows_lem :
    (n row : ℕ) (w : Writer) (r c : ℕ)
    → c < buffer_width
    → ((clear_rows n row w).buffer r c
        ≡ (if leb row r && ltb r (row + n) then blank w else w.buffer r c))
      × ((clear_rows n row w).color ≡ w.color)
unfolding clear_rows clear_row
clear_rows_lem zero row w r c k = (ground arith, refl)
clear_rows_lem (suc n) row w r c k =
    let ih = clear_rows_lem n (row + 1) (clear_row row w) r c k in
    (ground (arith, ih, fill_cols_lem buffer_width 0 row (blank w) w.buffer r c), ih.1)

-- Clearing the screen leaves every cell blank in the writer's colour, and the cursor at the start.
pub clear_screen-blank :
    (w : Writer) (r c : ℕ)
    → r < buffer_height
    → c < buffer_width
    → ((clear_screen w).buffer r c ≡ blank w) × ((clear_screen w).column_position ≡ 0)
unfolding clear_screen
clear_screen-blank w r c h k = (ground (arith, (clear_rows_lem buffer_height 0 w r c k).0), refl)
