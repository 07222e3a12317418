-- ===== src/Syscall.antt =====
-- src/syscall.rs: the system calls of `int 0x80`. The handler is given the four registers that it
-- reads; what it returns goes through the static `SYSCALL_RETURN`.
pub mod Answers
use molt_os.Prelude.{
  ℕ, ◌+◌, ◌/◌, ◌%◌, ◌==◌, Bool, true, false, ltb, if◌then◌else◌, List, [], ◌∷◌, Checked, ok, panic,
  ◌>>=◌, u64_max,
}
use molt_os.Vga.Text.{Writer, write_string}

abbrev pub syscall_vector : ℕ
syscall_vector = 0x80

pub data Syscall : Type 0 where
  uptime put_char exit : Syscall

abbrev pub as_u64 : Syscall → ℕ
as_u64 uptime = 0
as_u64 put_char = 1
as_u64 exit = 2

-- The screen, the count of ticks, and `SYSCALL_RETURN`.
pub record System : Type 0 where
  pub writer : Writer
  pub ticks : ℕ
  pub syscall_return : ℕ

-- `_print`.
abbrev pub print : List ℕ → System → Checked System
print text s = do w ← write_string s.writer text; ok (record s { writer = w })

-- The UTF-8 of a byte that is taken as a `char`.
abbrev pub char_bytes : ℕ → List ℕ
char_bytes c = if ltb c 0x80 then c ∷ [] else (0xc0 + c / 64) ∷ (0x80 + c % 64) ∷ []

abbrev pub newline : ℕ
newline = 10

unfoldable pub put_char_of : ℕ → System → Checked System
put_char_of c s = if c == newline then print (newline ∷ []) s else print (char_bytes c) s

unfoldable pub dispatch : ℕ → ℕ → ℕ → ℕ → System → Checked (ℕ × System)
dispatch number arg1 arg2 arg3 s =
    if number == 0
    then ok (s.ticks, s)
    else if number == 1
    then (do s' ← put_char_of (arg1 % 256) s; ok (0, s'))
    else if number == 2
    then ok (0, s)
    else ok (u64_max, s)

unfoldable pub syscall_handler : ℕ → ℕ → ℕ → ℕ → System → Checked System
syscall_handler number arg1 arg2 arg3 s = do
  (result, s') ← dispatch number arg1 arg2 arg3 s
  ok (record s' { syscall_return = result })

-- What other threads do between the return of the handler and the load of `SYSCALL_RETURN`.
abbrev pub Meanwhile : Type 0
Meanwhile = System → Checked System

-- `syscall0`, `syscall1` and `syscall2`; the registers that they do not set are arguments.
unfoldable pub invoke : ℕ → ℕ → ℕ → ℕ → Meanwhile → System → Checked (ℕ × System)
invoke number arg1 arg2 arg3 meanwhile s = do
  s1 ← syscall_handler number arg1 arg2 arg3 s
  s2 ← meanwhile s1
  ok (s2.syscall_return, s2)

abbrev pub syscall0 : ℕ → ℕ → ℕ → ℕ → Meanwhile → System → Checked (ℕ × System)
syscall0 n rdi rsi rdx meanwhile s = invoke n rdi rsi rdx meanwhile s

abbrev pub syscall1 : ℕ → ℕ → ℕ → ℕ → Meanwhile → System → Checked (ℕ × System)
syscall1 n a1 rsi rdx meanwhile s = invoke n a1 rsi rdx meanwhile s

abbrev pub syscall2 : ℕ → ℕ → ℕ → ℕ → Meanwhile → System → Checked (ℕ × System)
syscall2 n a1 a2 rdx meanwhile s = invoke n a1 a2 rdx meanwhile s
