-- ===== src/Task/Shell/Erasing.antt =====
-- shell.rs: Backspace takes back a character that was typed.
use molt_os.Prelude.{
  ℕ, ◌-◌, ◌<◌, ◌≡◌, refl, ap, ◌∙◌, ◌==◌, true, false, ◌&&◌, ◌||◌, ltb, leb, if◌then◌else◌, List, [],
  ◌∷◌, ◌++◌, ok, ◌>>=◌, >>=-eq-ok, arith,
}
use molt_os.Vga.Text.{Writer, blank, write_byte, shown, write_string, buffer_height, buffer_width}
use molt_os.Vga.Text.Writing.{IsPrintable, backspace-erases}
use molt_os.Syscall.{print}
use molt_os.Task.Shell.{Shell, on_system, pop_line, erase, type_char}

pop_line-snoc : (line : List ℕ) (c : ℕ) → pop_line (line ++ (c ∷ [])) ≡ line
unfolding pop_line
pop_line-snoc [] c = refl
pop_line-snoc (d ∷ []) c = refl
pop_line-snoc (d ∷ e ∷ line) c = ap (λ l. d ∷ l) (pop_line-snoc (e ∷ line) c)

module _ {K : Type 0} where
  erase-snoc :
      (s : Shell K) (line : List ℕ) (c : ℕ)
      → s.line ≡ line ++ (c ∷ [])
      → erase s ≡ on_system (print (8 ∷ [])) (record s { line = line })
  erase-snoc s [] c e =
      rw e (ap (λ l. on_system (print (8 ∷ [])) (record s { line = l })) (pop_line-snoc [] c))
  erase-snoc s (d ∷ line) c e =
      rw e
        (ap (λ l. on_system (print (8 ∷ [])) (record s { line = l })) (pop_line-snoc (d ∷ line) c))

  -- A printable character that is typed where the row has room and then erased leaves the line as it
  -- was, and the screen as it was but for a blank in its cell.
  pub type_char-erase :
      (c : ℕ) (s : Shell K)
      → IsPrintable c
      → s.system.writer.column_position < buffer_width
      → (s' : Shell K) × (type_char c s >>= erase ≡ ok s')
        × (s'.line ≡ s.line)
        × (s'.system.writer.column_position ≡ s.system.writer.column_position)
        × ((row col : ℕ)
            → s'.system.writer.buffer row col ≡ (
                if row == buffer_height - 1 && col == s.system.writer.column_position
                then blank s.system.writer
                else s.system.writer.buffer row col))
  unfolding type_char write_string
  type_char-erase c s p room =
      let w : Writer = s.system.writer in
      let (w', both, column, cells) = backspace-erases w c p room in
      let (w1, first, second) = >>=-eq-ok (write_byte w (shown c)) _ both in
      let not_erase : (c == 8) || (c == 0x7f) ≡ false = ground (arith, p) in
      let shows : ltb c 0x80 && leb 0x20 c ≡ true = ground (arith, p) in
      let typed : Shell K = record s {
        line = s.line ++ (c ∷ []);
        system = record s.system { writer = w1 };
      } in
      let step : type_char c s ≡ ok typed = rw (not_erase, shows, first) in
      let last : on_system (print (8 ∷ [])) (record typed { line = s.line })
          ≡ ok (record s { system = record s.system { writer = w' } }) =
        ap
          (λ m. (m >>= λ v. ok (record s.system { writer = v })) >>= λ system.
            ok (record s { system = system }))
          second in
      (
        record s { system = record s.system { writer = w' } },
        ap (λ m. m >>= erase) step ∙ erase-snoc typed s.line c refl ∙ last,
        refl,
        column,
        cells,
      )
