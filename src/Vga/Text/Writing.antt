-- ===== src/Vga/Text/Writing.antt =====
-- What `write_byte` and `write_string` of vga_buffer.rs put on the screen.
use molt_os.Prelude.{
  ℕ, suc, ◌+◌, ◌-◌, ◌≤◌, ◌<◌, ◌≡◌, refl, false, ◌&&◌, ◌==◌, ltb, leb, if◌then◌else◌, arith, lt→ltb,
  inl, inr, List, [], ◌∷◌, length, ok, All, Bool-cases, ap,
}
use molt_os.Vga.Text.{
  Buffer, Writer, put, blank, new_line, backspace, place, wrap, write_byte, shown, write_string,
  buffer_width, buffer_height,
}
use molt_os.Vga.Text.Loops.{new_line-scrolls}

-- The cursor stands in the row or just past its end.
abbrev pub IsValid : Writer → Type 0
IsValid w = w.column_position ≤ buffer_width

column_new_line : (w : Writer) → (new_line w).column_position ≡ 0
column_new_line w = (new_line-scrolls w 0 0 (omega arith) (omega arith)).1

wrap-inside : (w : Writer) → IsValid w → (wrap w).column_position < buffer_width
wrap-inside w v = ground (arith, column_new_line w)

place-total :
    (byte : ℕ) (w : Writer)
    → w.column_position < buffer_width
    → (w' : Writer) × (place byte w ≡ ok w') × (w'.column_position ≡ w.column_position + 1)
unfolding place
place-total byte w h = (
  record w {
    column_position = w.column_position + 1;
    buffer =
        put w.buffer (buffer_height - 1) w.column_position
          (record { ascii_character = byte; color = w.color });
  },
  rw (lt→ltb w.column_position buffer_width h),
  refl,
)

backspace-total : (w : Writer) → IsValid w → (w' : Writer) × (backspace w ≡ ok w') × IsValid w'
unfolding backspace
backspace-total w v = elim (Bool-cases (ltb 0 w.column_position)) [
  | inl t ↦ (
    record w {
      column_position = w.column_position - 1;
      buffer = put w.buffer (buffer_height - 1) (w.column_position - 1) (blank w);
    },
    rw (t, lt→ltb (w.column_position - 1) buffer_width (ground arith)),
    omega arith,
  )
  | inr t ↦ (w, rw t, v)
]

-- No byte makes the writer panic or leaves the cursor beyond the row.
pub write_byte-total :
    (w : Writer) (byte : ℕ) → IsValid w → (w' : Writer) × (write_byte w byte ≡ ok w') × IsValid w'
unfolding write_byte
write_byte-total w byte v = elim (Bool-cases (byte == 10)) [
  | inl t ↦ (new_line w, rw t, omega (arith, column_new_line w))
  | inr t ↦ elim (Bool-cases (byte == 8)) [
    | inl u ↦ let (w', e, k) = backspace-total w v in (w', rw (t, u) e, k)
    | inr u ↦
        let inside = wrap-inside w v in
        let (w', e, k) = place-total byte (wrap w) inside in
        (w', rw (t, u) e, omega (arith, k, inside))
  ]
]

-- Nor does any text.
pub write_string-total :
    (xs : List ℕ) (w : Writer)
    → IsValid w
    → (w' : Writer) × (write_string w xs ≡ ok w') × IsValid w'
unfolding write_string
write_string-total [] w v = (w, refl, v)
write_string-total (x ∷ xs) w v =
    let (w', e, k) = write_byte-total w (shown x) v in
    let (w'', f, m) = write_string-total xs w' k in (w'', rw e f, m)

-- The bytes that `write_string` puts on the screen as they are.
abbrev pub IsPrintable : ℕ → Type 0
IsPrintable x = (0x20 ≤ x) × (x ≤ 0x7e)

-- The bytes of `xs` from column `col` of the last row on, over the buffer `b`.
abbrev pub overlay : List ℕ → ℕ → ℕ → Buffer → Buffer
overlay [] col color b = b
overlay (x ∷ xs) col color b =
    overlay xs (col + 1) color
      (put b (buffer_height - 1) col (record { ascii_character = x; color = color }))

-- The writer after the byte `x`, written at the cursor as it is.
abbrev pub typed : ℕ → Writer → Writer
typed x w = record w {
  column_position = w.column_position + 1;
  buffer =
      put w.buffer (buffer_height - 1) w.column_position
        (record { ascii_character = x; color = w.color });
}

write_byte-printable :
    (w : Writer) (x : ℕ)
    → IsPrintable x
    → w.column_position < buffer_width
    → write_byte w (shown x) ≡ ok (typed x w)
unfolding write_byte place
write_byte-printable w x p h =
    let as_is : shown x ≡ x = ground arith in
    let not_newline : (x == 10) ≡ false = ground arith in
    let not_backspace : (x == 8) ≡ false = ground arith in
    let no_wrap : leb buffer_width w.column_position ≡ false = ground arith in
    rw (as_is, not_newline, not_backspace, no_wrap, lt→ltb w.column_position buffer_width h)

-- A printable text that fits in the row is written from the cursor on, byte for byte, and nothing
-- else changes on the screen.
pub write_string-fits :
    (xs : List ℕ) (w : Writer)
    → All IsPrintable xs
    → w.column_position + length xs ≤ buffer_width
    → write_string w xs
      ≡ ok (record w {
        column_position = w.column_position + length xs;
        buffer = overlay xs w.column_position w.color w.buffer;
      })
unfolding write_string
write_string-fits [] w p h =
    let same : w.column_position ≡ w.column_position + 0 = omega arith in
    ap (λ c. ok (record w { column_position = c })) same
write_string-fits (x ∷ xs) w p h =
    let same : w.column_position + 1 + length xs ≡ w.column_position + suc (length xs) =
      omega arith in
    let screen : Buffer = overlay xs (w.column_position + 1) w.color (typed x w).buffer in
    rw
      (
        write_byte-printable w x p.0 (omega arith),
        write_string-fits xs (typed x w) p.1 (omega arith),
      )
      (ap (λ c. ok (record w { column_position = c; buffer = screen })) same)

write_byte-backspace :
    (w : Writer)
    → 0 < w.column_position
    → w.column_position ≤ buffer_width
    → write_byte w (shown 8)
      ≡ ok (record w {
        column_position = w.column_position - 1;
        buffer = put w.buffer (buffer_height - 1) (w.column_position - 1) (blank w);
      })
unfolding write_byte backspace
write_byte-backspace w h k =
    rw (lt→ltb 0 w.column_position h, lt→ltb (w.column_position - 1) buffer_width (omega arith))

-- A character echoed on the screen and then taken back: the cursor is where it was, its cell is
-- blank, and no other cell has changed.
pub backspace-erases :
    (w : Writer) (x : ℕ)
    → IsPrintable x
    → w.column_position < buffer_width
    → (w' : Writer) × (write_string w (x ∷ 8 ∷ []) ≡ ok w')
      × (w'.column_position ≡ w.column_position)
      × ((r c : ℕ)
          → w'.buffer r c
            ≡ (if r == buffer_height - 1 && c == w.column_position then blank w else w.buffer r c))
unfolding write_string
backspace-erases w x p h =
    let back : w.column_position + 1 - 1 ≡ w.column_position = omega arith in
    (
      record w {
        column_position = w.column_position + 1 - 1;
        buffer = put (typed x w).buffer (buffer_height - 1) (w.column_position + 1 - 1) (blank w);
      },
      rw (
        write_byte-printable w x p h,
        write_byte-backspace (typed x w) (omega arith) (omega arith),
      ),
      back,
      λ r c. ground arith,
    )
