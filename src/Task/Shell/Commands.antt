-- ===== src/Task/Shell/Commands.antt =====
-- shell.rs: what the commands do to the screen does not panic.
use molt_os.Prelude.{
  ◌-◌, ◌/◌, ◌≤◌, leb, Option, some, All, subst, ascii, ℕ, ◌≡◌, refl, sym, ◌∙◌, Bool, true, false,
  ◌||◌, if◌then◌else◌, List, [], ◌∷◌, ◌++◌, Checked, ok, ◌>>=◌, arith,
}
use molt_os.Memory.{MemoryRegion}
use molt_os.Memory.Dump.{region_line, dump_region, dump_regions, dump_memory_map}
use molt_os.Vga.Text.{clear_screen}
use molt_os.Vga.Text.Loops.{clear_screen-blank}
use molt_os.Vga.Text.Writing.{IsValid, write_string-total}
use molt_os.Syscall.{System, Meanwhile, print, invoke, syscall_handler}
use molt_os.Syscall.Answers.{dispatch-Replied}
use molt_os.Task.Shell.{
  first_word, split_ascii_whitespace, same_text, println, print_lines, cmd_clear, cmd_mem,
  cmd_syscall,
}

-- A step of the system that does not panic and keeps the screen valid.
pub record Fine (m : Checked System) : Type 0 where
  pub after : System
  pub result : m ≡ ok after
  pub valid : IsValid after.writer

pub print-Fine : (text : List ℕ) (s : System) → IsValid s.writer → Fine (print text s)
print-Fine text s v =
    let (w, e, k) = write_string-total text s.writer v in
    record { after = record s { writer = w }; result = rw e; valid = k }

pub >>=-Fine :
    (m : Checked System) (f : System → Checked System)
    → Fine m
    → ((s : System) → IsValid s.writer → Fine (f s))
    → Fine (m >>= f)
>>=-Fine m f h k =
    let next = k h.after h.valid in
    record { after = next.after; result = rw (h.result) next.result; valid = next.valid }

pub print_lines-Fine :
    (ls : List (List ℕ)) (s : System) → IsValid s.writer → Fine (print_lines ls s)
print_lines-Fine [] s v = record { after = s; result = refl; valid = v }
print_lines-Fine (l ∷ ls) s v =
    >>=-Fine (println l s) (print_lines ls) (print-Fine (l ++ (10 ∷ [])) s v)
      (λ t u. print_lines-Fine ls t u)

-- The other threads of a system call do not panic and keep the screen valid.
abbrev pub IsFine : Meanwhile → Type 0
IsFine meanwhile = (s : System) → IsValid s.writer → Fine (meanwhile s)

pub invoke-Fine :
    (meanwhile : Meanwhile) (number arg1 : ℕ) (s : System)
    → IsFine meanwhile
    → IsValid s.writer
    → (r : ℕ × System) × (invoke number arg1 0 0 meanwhile s ≡ ok r) × IsValid r.1.writer
unfolding invoke syscall_handler
invoke-Fine meanwhile number arg1 s fine v =
    let r = dispatch-Replied number arg1 0 0 s v in
    let (w, e, k) = write_string-total r.printed s.writer v in
    let same : ok w ≡ ok r.writer = sym e ∙ r.shown in
    let the_writer : w ≡ r.writer = cc same in
    let s1 : System = record s { writer = r.writer; syscall_return = r.result } in
    let after = fine s1 (subst IsValid the_writer k) in
    ((after.after.syscall_return, after.after), rw (r.reply, after.result), after.valid)

pub if-Fine : (b : Bool) {x y : Checked System} → Fine x → Fine y → Fine (if b then x else y)
if-Fine true h k = h
if-Fine false h k = k

pub bind-Fine :
    {A : Type 0} {m : Checked A} (f : A → Checked System) (a : A)
    → m ≡ ok a
    → Fine (f a)
    → Fine (m >>= f)
bind-Fine f a e h = record { after = h.after; result = rw e h.result; valid = h.valid }

pub cmd_syscall-Fine :
    (meanwhile : Meanwhile) (args : List ℕ) (s : System)
    → IsFine meanwhile
    → IsValid s.writer
    → Fine (cmd_syscall meanwhile args s)
unfolding cmd_syscall
cmd_syscall-Fine meanwhile args s fine v =
    let sub : List ℕ = first_word (split_ascii_whitespace args) in
    let (r, e, k) = invoke-Fine meanwhile 0 0 s fine v in
    let (r', e', k') = invoke-Fine meanwhile 1 b'A' s fine v in
    if-Fine (same_text sub (ascii "uptime") || same_text sub (ascii "u"))
      (bind-Fine _ r e (search (print-Fine, k)))
      (if-Fine (same_text sub (ascii "putchar") || same_text sub (ascii "p"))
        (bind-Fine _ r' e' (search (print-Fine, k')))
        (if-Fine (same_text sub []) (search (print_lines-Fine, v)) (search (print-Fine, v))))

pub cmd_clear-Fine : (s : System) → Fine (cmd_clear s)
unfolding cmd_clear
cmd_clear-Fine s =
    let cleared = clear_screen-blank s.writer 0 0 (omega arith) (omega arith) in
    record {
      after = record s { writer = clear_screen s.writer };
      result = refl;
      valid = omega (arith, cleared.1);
    }

-- A region does not end before it starts.
abbrev pub IsOrdered : MemoryRegion → Type 0
IsOrdered r = r.start ≤ r.stop

dump_region-Fine :
    (r : MemoryRegion) (s : System) → IsOrdered r → IsValid s.writer → Fine (dump_region r s)
unfolding dump_region
dump_region-Fine r s ordered v =
    let forward : leb r.start r.stop ≡ true = ground (arith, ordered) in
    rw forward (print-Fine (region_line r ((r.stop - r.start) / 1024)) s v)

dump_regions-Fine :
    (rs : List MemoryRegion) (s : System)
    → All IsOrdered rs
    → IsValid s.writer
    → Fine (dump_regions rs s)
unfolding dump_regions
dump_regions-Fine [] s a v = record { after = s; result = refl; valid = v }
dump_regions-Fine (r ∷ rs) s a v =
    >>=-Fine (dump_region r s) (dump_regions rs) (dump_region-Fine r s a.0 v)
      (λ t u. dump_regions-Fine rs t a.1 u)

pub cmd_mem-Fine :
    (memory_map : Option (List MemoryRegion)) (regions : List MemoryRegion) (s : System)
    → memory_map ≡ some regions
    → All IsOrdered regions
    → IsValid s.writer
    → Fine (cmd_mem memory_map s)
unfolding cmd_mem dump_memory_map
cmd_mem-Fine memory_map regions s e a v = rw e (
    >>=-Fine (println (ascii "Memory map:") s) (dump_regions regions)
      (print-Fine (ascii "Memory map:" ++ (10 ∷ [])) s v) (λ t u. dump_regions-Fine regions t a u))
