-- ===== src/Task/Shell.antt =====
-- src/task/shell.rs: the command loop. The decoder of scancodes is the crate pc_keyboard's and a
-- parameter; the output goes to the screen through `print`. The line is its characters' codes, which
-- are ASCII, since no others are appended.
pub mod Commands
pub mod Editing
pub mod Erasing
use molt_os.Prelude.{
  ℕ, zero, suc, ◌+◌, ◌-◌, ◌*◌, ◌/◌, ◌%◌, ◌==◌, Bool, true, false, not, ◌&&◌, ◌||◌, ltb, leb,
  if◌then◌else◌, Option, none, some, List, [], ◌∷◌, ◌++◌, ascii, Checked, ok, panic, or_panic,
  ◌>>=◌,
}
use molt_os.Vga.Text.{Writer, clear_screen}
use molt_os.Vga.Format.{decimal}
use molt_os.Memory.{MemoryRegion}
use molt_os.Memory.Dump.{dump_memory_map}
use molt_os.Scheduler.Created.{with_stack_size}
use molt_os.Scheduler.Global.{Scheduler, spawn}
use molt_os.Syscall.{
  System, Meanwhile, Syscall, uptime, put_char, as_u64, print, syscall0, syscall1,
}

abbrev pub prompt : List ℕ
prompt = ascii "moltos> "

-- `DecodedKey`, as far as the shell looks at it: `raw_key` is any key code but the Backspace.
pub data DecodedKey : Type 0 where
  unicode : ℕ → DecodedKey
  backspace_key raw_key : DecodedKey

-- `add_byte` and `process_keyevent` in turn; `none` where either gives no key.
pub record Decoder (K : Type 0) : Type 0 where
  pub decode : K → ℕ → K × Option DecodedKey

-- The decoder's state, the line, and what the commands work on.
pub record Shell (K : Type 0) : Type 0 where
  pub keyboard : K
  pub line : List ℕ
  pub launched : Bool
  pub system : System
  pub scheduler : Scheduler
  pub next_thread : ℕ
  pub memory : ℕ → ℕ

-- What the commands find: the memory map of `MEMORY_MAP`, where the heap puts the stack and the context
-- of the game's thread, and the address of `doom_entry`.
pub record Surroundings : Type 0 where
  pub memory_map : Option (List MemoryRegion)
  pub place : Option (ℕ × ℕ)
  pub doom_entry : ℕ

abbrev pub println : List ℕ → System → Checked System
println text s = print (text ++ (10 ∷ [])) s

-- `char::is_ascii_whitespace`: of the ASCII characters, `trim` removes also the vertical tab.
abbrev pub is_ascii_whitespace : ℕ → Bool
is_ascii_whitespace c = (c == 32) || (c == 9) || (c == 10) || (c == 12) || (c == 13)

abbrev pub is_whitespace : ℕ → Bool
is_whitespace c = is_ascii_whitespace c || (c == 11)

unfoldable pub trim_start : List ℕ → List ℕ
trim_start [] = []
trim_start (c ∷ cs) = let rest = trim_start cs in if is_whitespace c then rest else c ∷ cs

unfoldable pub trim_end : List ℕ → List ℕ
trim_end [] = []
trim_end (c ∷ cs) =
    let rest : List ℕ = trim_end cs in
    elim rest [ [] ↦ if is_whitespace c then [] else c ∷ [] | d ∷ ds ↦ c ∷ d ∷ ds ]

abbrev pub trim : List ℕ → List ℕ
trim line = trim_end (trim_start line)

-- A character before the words that follow it.
abbrev pub extend : ℕ → List (List ℕ) → List (List ℕ)
extend c [] = (c ∷ []) ∷ []
extend c (w ∷ ws) = (c ∷ w) ∷ ws

-- The pieces between whitespace, empty ones included, and then without them.
unfoldable pub pieces : List ℕ → List (List ℕ)
pieces [] = [] ∷ []
pieces (c ∷ cs) = let rest = pieces cs in if is_ascii_whitespace c then [] ∷ rest else extend c rest

unfoldable pub nonempty : List (List ℕ) → List (List ℕ)
nonempty [] = []
nonempty ([] ∷ ws) = nonempty ws
nonempty ((c ∷ w) ∷ ws) = (c ∷ w) ∷ nonempty ws

abbrev pub split_ascii_whitespace : List ℕ → List (List ℕ)
split_ascii_whitespace line = nonempty (pieces line)

-- `join(" ")`.
unfoldable pub join : List (List ℕ) → List ℕ
join [] = []
join (w ∷ []) = w
join (w ∷ v ∷ ws) = w ++ (32 ∷ join (v ∷ ws))

abbrev pub same_text : List ℕ → List ℕ → Bool
same_text [] [] = true
same_text [] (y ∷ ys) = false
same_text (x ∷ xs) [] = false
same_text (x ∷ xs) (y ∷ ys) = (x == y) && same_text xs ys

abbrev pub print_lines : List (List ℕ) → System → Checked System
print_lines [] s = ok s
print_lines (l ∷ ls) s = println l s >>= print_lines ls

unfoldable pub cmd_help : System → Checked System
cmd_help s =
    print_lines
      (ascii "  help       - show this message"
        ∷ ascii "  clear/cls  - clear the screen"
        ∷ ascii "  echo ...   - print the rest of the line"
        ∷ ascii "  uptime     - show uptime in timer ticks"
        ∷ ascii "  mem/memory - dump memory map"
        ∷ ascii "  syscall    - test syscalls (uptime, putchar)"
        ∷ ascii "  doom       - launch Doom (requires doom1.wad)"
        ∷ [])
      s

unfoldable pub cmd_uptime : System → Checked System
cmd_uptime s = println (decimal s.ticks ++ ascii " ticks") s

unfoldable pub cmd_clear : System → Checked System
cmd_clear s = ok (record s { writer = clear_screen s.writer })

unfoldable pub cmd_echo : List ℕ → System → Checked System
cmd_echo args s = println args s

-- `memory_map` is what `MEMORY_MAP` holds.
unfoldable pub cmd_mem : Option (List MemoryRegion) → System → Checked System
cmd_mem memory_map s = println (ascii "Memory map:") s >>= dump_memory_map memory_map

abbrev pub first_word : List (List ℕ) → List ℕ
first_word [] = []
first_word (w ∷ ws) = w

abbrev pub other_words : List (List ℕ) → List (List ℕ)
other_words [] = []
other_words (w ∷ ws) = ws

unfoldable pub cmd_syscall : Meanwhile → List ℕ → System → Checked System
cmd_syscall meanwhile args s =
    let sub : List ℕ = first_word (split_ascii_whitespace args) in
    if same_text sub (ascii "uptime") || same_text sub (ascii "u")
    then (do
      (ticks, s') ← syscall0 (as_u64 uptime) 0 0 0 meanwhile s
      println (ascii "syscall(SYS_UPTIME) = " ++ (decimal ticks ++ ascii " ticks")) s')
    else if same_text sub (ascii "putchar") || same_text sub (ascii "p")
    then (do
      (result, s') ← syscall1 (as_u64 put_char) b'A' 0 0 meanwhile s
      println (ascii " (printed via syscall)") s')
    else if same_text sub []
    then print_lines
        (ascii "Usage: syscall <uptime|putchar>"
          ∷ ascii "  uptime (u)  - call SYS_UPTIME via int 0x80"
          ∷ ascii "  putchar (p) - call SYS_PUTCHAR('A') via int 0x80"
          ∷ [])
        s
    else println (ascii "unknown syscall test: '" ++ (sub ++ ascii "'. Use uptime or putchar.")) s

-- The stack of the game's thread.
abbrev pub doom_stack : ℕ
doom_stack = 24 * 1024 * 1024

-- `Thread::with_stack_size` and `spawn`, where the heap puts the stack and the context at `place`; a
-- failed allocation panics.
unfoldable pub spawn_doom : {K : Type 0} → Option (ℕ × ℕ) → ℕ → Shell K → Checked (Shell K)
spawn_doom place doom_entry s = do
  at ← or_panic place
  r ← with_stack_size at.0 at.1 doom_entry doom_stack s.next_thread s.memory
  ok (record s { scheduler = spawn s.scheduler r.0; next_thread = r.2; memory = r.3 })

-- `cmd_doom`: the second launch is refused.
unfoldable pub cmd_doom : {K : Type 0} → Option (ℕ × ℕ) → ℕ → Shell K → Checked (Shell K)
cmd_doom place doom_entry s =
    if s.launched
    then (do
      system ← println (ascii "doom: already running") s.system
      ok (record s { system = system }))
    else (do
      system ← println (ascii "launching doom...") s.system
      spawn_doom place doom_entry (record s { launched = true; system = system }))

-- `line.pop()`: the line without its last character, if there is one.
unfoldable pub pop_line : List ℕ → List ℕ
pop_line [] = []
pop_line (c ∷ []) = []
pop_line (c ∷ d ∷ ds) = c ∷ pop_line (d ∷ ds)

module _ {K : Type 0} where
  abbrev pub on_system : (System → Checked System) → Shell K → Checked (Shell K)
  on_system f s = do system ← f s.system; ok (record s { system = system })

  abbrev pub erase : Shell K → Checked (Shell K)
  erase s = elim s.line [
    | [] ↦ ok s
    | c ∷ cs ↦ on_system (print (8 ∷ [])) (record s { line = pop_line s.line })
  ]

  unfoldable pub type_char : ℕ → Shell K → Checked (Shell K)
  type_char c s =
      if (c == 8) || (c == 0x7f)
      then erase s
      else if ltb c 0x80 && leb 0x20 c
      then on_system (print (c ∷ [])) (record s { line = s.line ++ (c ∷ []) })
      else ok s

  -- `run_shell` up to its loop.
  unfoldable pub greet : Shell K → Checked (Shell K)
  greet s = do
    s' ← on_system (println (ascii "Chronos shell. Type 'help' for commands.")) s
    on_system (print prompt) s'

module _ {K : Type 0} (decoder : Decoder K) (env : Surroundings) (meanwhile : Meanwhile) where
  unfoldable pub run_words : List ℕ → List ℕ → Shell K → Checked (Shell K)
  run_words cmd rest s =
      if same_text cmd (ascii "help")
      then on_system cmd_help s
      else if same_text cmd (ascii "clear") || same_text cmd (ascii "cls")
      then on_system cmd_clear s
      else if same_text cmd (ascii "echo")
      then on_system (cmd_echo (trim rest)) s
      else if same_text cmd (ascii "uptime")
      then on_system cmd_uptime s
      else if same_text cmd (ascii "mem") || same_text cmd (ascii "memory")
      then on_system (cmd_mem env.memory_map) s
      else if same_text cmd (ascii "syscall")
      then on_system (cmd_syscall meanwhile (trim rest)) s
      else if same_text cmd (ascii "doom")
      then cmd_doom env.place env.doom_entry s
      else on_system
          (println (ascii "unknown command: '" ++ (cmd ++ ascii "'. Type 'help' for commands."))) s

  unfoldable pub run_command : List ℕ → Shell K → Checked (Shell K)
  run_command [] s = ok s
  run_command (c ∷ cs) s =
      let parts = split_ascii_whitespace (c ∷ cs) in
      run_words (first_word parts) (join (other_words parts)) s

  unfoldable pub enter : Shell K → Checked (Shell K)
  enter s = do
    s1 ← on_system (println []) s
    s2 ← run_command (trim s1.line) s1
    on_system (print prompt) (record s2 { line = [] })

  -- What a decoded key does.
  unfoldable pub handle_key : DecodedKey → Shell K → Checked (Shell K)
  handle_key (unicode c) s = if (c == 13) || (c == 10) then enter s else type_char c s
  handle_key backspace_key s = erase s
  handle_key raw_key s = ok s

  abbrev pub handle_decoded : Option DecodedKey → Shell K → Checked (Shell K)
  handle_decoded none s = ok s
  handle_decoded (some key) s = handle_key key s

  -- A turn of the loop of `run_shell`.
  unfoldable pub handle_scancode : ℕ → Shell K → Checked (Shell K)
  handle_scancode scancode s =
      let d = decoder.decode s.keyboard scancode in handle_decoded d.1 (record s { keyboard = d.0 })

  -- The loop of `run_shell` over the scancodes that come.
  unfoldable pub run_loop : List ℕ → Shell K → Checked (Shell K)
  run_loop [] s = ok s
  run_loop (v ∷ vs) s = handle_scancode v s >>= run_loop vs
