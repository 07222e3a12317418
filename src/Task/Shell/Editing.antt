-- ===== src/Task/Shell/Editing.antt =====
-- shell.rs: whatever is typed, the shell does not panic.
use molt_os.Prelude.{
  List-cases, ascii, ℕ, ◌≡◌, inl, inr, refl, ◌==◌, Bool, true, false, ◌&&◌, ◌||◌, Bool-cases, ltb,
  leb, if◌then◌else◌, Option, none, some, List, [], ◌∷◌, ◌++◌, All, Checked, ok, ◌>>=◌, arith,
}
use molt_os.Vga.Text.Writing.{IsValid, IsPrintable}
use molt_os.Memory.{MemoryRegion}
use molt_os.Scheduler.Starting.{IsPlaced, with_stack_size-Starts}
use molt_os.Scheduler.Global.{spawn}
use molt_os.Syscall.{System, Meanwhile, print}
use molt_os.Task.Shell.{
  trim, prompt, same_text, Shell, Surroundings, doom_stack, spawn_doom, Decoder, DecodedKey,
  unicode, backspace_key, raw_key, println, cmd_help, cmd_uptime, cmd_clear, cmd_echo, cmd_mem,
  cmd_syscall, cmd_doom, on_system, run_words, run_command, pop_line, erase, enter, type_char,
  handle_key, handle_decoded, handle_scancode, run_loop,
}
use molt_os.Task.Shell.Commands.{
  IsOrdered, Fine, IsFine, print-Fine, print_lines-Fine, cmd_syscall-Fine, cmd_clear-Fine,
  cmd_mem-Fine,
}

-- A step of the shell that does not panic, keeps the screen valid and the line printable.
pub record Runs {K : Type 0} (m : Checked (Shell K)) : Type 0 where
  pub after : Shell K
  pub result : m ≡ ok after
  pub valid : IsValid after.system.writer
  pub printable : All IsPrintable after.line

-- The boot has stored the memory map, of regions that do not end before they start, and the heap has
-- room for the game's thread.
pub record IsReady (env : Surroundings) : Type 0 where
  pub regions : List MemoryRegion
  pub stored : env.memory_map ≡ some regions
  pub ordered : All IsOrdered regions
  pub start : ℕ
  pub ctx : ℕ
  pub allocated : env.place ≡ some (start, ctx)
  pub placed : IsPlaced start ctx doom_stack

module _ {K : Type 0} (decoder : Decoder K) (env : Surroundings) (meanwhile : Meanwhile)
    (ready : IsReady env) (fine : IsFine meanwhile) where
  if-Runs : (b : Bool) {x y : Checked (Shell K)} → Runs x → Runs y → Runs (if b then x else y)
  if-Runs true h k = h
  if-Runs false h k = k

  on_system-Runs :
      (f : System → Checked System) (s : Shell K)
      → Fine (f s.system)
      → All IsPrintable s.line
      → Runs (on_system f s)
  on_system-Runs f s h p = record {
    after = record s { system = h.after };
    result = rw (h.result);
    valid = h.valid;
    printable = p;
  }

  cmd_doom-Runs :
      (s : Shell K)
      → IsValid s.system.writer
      → All IsPrintable s.line
      → Runs (cmd_doom env.place env.doom_entry s)
  unfolding cmd_doom spawn_doom
  cmd_doom-Runs s v p =
      let already = print-Fine (ascii "doom: already running" ++ (10 ∷ [])) s.system v in
      let launching = print-Fine (ascii "launching doom..." ++ (10 ∷ [])) s.system v in
      let (_, thread, _, counter, m, made, _, _, _, _, _, _, _) =
        with_stack_size-Starts ready.start ready.ctx env.doom_entry doom_stack s.next_thread
          s.memory ready.placed in
      if-Runs s.launched
        record {
          after = record s { system = already.after };
          result = rw (already.result);
          valid = already.valid;
          printable = p;
        }
        record {
          after = record s {
            launched = true;
            system = launching.after;
            scheduler = spawn s.scheduler thread;
            next_thread = counter;
            memory = m;
          };
          result = rw (launching.result, ready.allocated, made);
          valid = launching.valid;
          printable = p;
        }

  run_words-Runs :
      (cmd rest : List ℕ) (s : Shell K)
      → IsValid s.system.writer
      → All IsPrintable s.line
      → Runs (run_words decoder env meanwhile cmd rest s)
  unfolding run_words cmd_help cmd_clear cmd_echo cmd_uptime cmd_mem
  run_words-Runs cmd rest s v p =
      if-Runs (same_text cmd (ascii "help"))
        (on_system-Runs cmd_help s (search (print_lines-Fine, v)) p)
        (if-Runs (same_text cmd (ascii "clear") || same_text cmd (ascii "cls"))
          (on_system-Runs cmd_clear s (cmd_clear-Fine s.system) p)
          (if-Runs (same_text cmd (ascii "echo"))
            (on_system-Runs (cmd_echo (trim rest)) s (search (print-Fine, v)) p)
            (if-Runs (same_text cmd (ascii "uptime"))
              (on_system-Runs cmd_uptime s (search (print-Fine, v)) p)
              (if-Runs (same_text cmd (ascii "mem") || same_text cmd (ascii "memory"))
                (on_system-Runs (cmd_mem env.memory_map) s
                  (cmd_mem-Fine env.memory_map ready.regions s.system ready.stored ready.ordered v)
                  p)
                (if-Runs (same_text cmd (ascii "syscall"))
                  (on_system-Runs (cmd_syscall meanwhile (trim rest)) s
                    (cmd_syscall-Fine meanwhile (trim rest) s.system fine v) p)
                  (if-Runs (same_text cmd (ascii "doom")) (cmd_doom-Runs s v p) (
                    on_system-Runs
                      (println (
                        ascii "unknown command: '"
                        ++ (cmd ++ ascii "'. Type 'help' for commands.")))
                      s (search (print-Fine, v)) p)))))))

  run_command-Runs :
      (line : List ℕ) (s : Shell K)
      → IsValid s.system.writer
      → All IsPrintable s.line
      → Runs (run_command decoder env meanwhile line s)
  unfolding run_command
  run_command-Runs [] s v p = record { after = s; result = refl; valid = v; printable = p }
  run_command-Runs (c ∷ cs) s v p = run_words-Runs _ _ s v p

  bind-Runs :
      (m : Checked (Shell K)) (f : Shell K → Checked (Shell K))
      → Runs m
      → ((s : Shell K) → IsValid s.system.writer → All IsPrintable s.line → Runs (f s))
      → Runs (m >>= f)
  bind-Runs m f h k =
      let next = k h.after h.valid h.printable in
      record {
        after = next.after;
        result = rw (h.result) next.result;
        valid = next.valid;
        printable = next.printable;
      }

  enter-Runs :
      (s : Shell K)
      → IsValid s.system.writer
      → All IsPrintable s.line
      → Runs (enter decoder env meanwhile s)
  unfolding enter
  enter-Runs s v p =
      bind-Runs (on_system (println []) s) _
        (on_system-Runs (println []) s (print-Fine (10 ∷ []) s.system v) p)
        (λ s1 v1 p1.
          bind-Runs (run_command decoder env meanwhile (trim s1.line) s1) _
            (run_command-Runs (trim s1.line) s1 v1 p1)
            (λ s2 v2 p2.
              on_system-Runs (print prompt) (record s2 { line = [] })
                (print-Fine prompt s2.system v2) tt))

  pop_line-All : (line : List ℕ) → All IsPrintable line → All IsPrintable (pop_line line)
  unfolding pop_line
  pop_line-All [] p = tt
  pop_line-All (c ∷ []) p = tt
  pop_line-All (c ∷ d ∷ ds) p = (p.0, pop_line-All (d ∷ ds) p.1)

  append-All :
      (line : List ℕ) (c : ℕ)
      → All IsPrintable line
      → IsPrintable c
      → All IsPrintable (line ++ (c ∷ []))
  append-All [] c p q = (q, tt)
  append-All (x ∷ xs) c p q = (p.0, append-All xs c p.1 q)

  erase-Runs : (s : Shell K) → IsValid s.system.writer → All IsPrintable s.line → Runs (erase s)
  erase-Runs s v p = elim (List-cases s.line) [
    | inl none_left ↦ record { after = s; result = rw none_left; valid = v; printable = p }
    | inr (c, cs, e) ↦
        let done = print-Fine (8 ∷ []) s.system v in
        record {
          after = record s { line = pop_line s.line; system = done.after };
          result = rw e (rw (done.result));
          valid = done.valid;
          printable = pop_line-All s.line p;
        }
  ]

  type_char-Runs :
      (c : ℕ) (s : Shell K)
      → IsValid s.system.writer
      → All IsPrintable s.line
      → Runs (type_char c s)
  unfolding type_char
  type_char-Runs c s v p = elim (Bool-cases ((c == 8) || (c == 0x7f))) [
    | inl a ↦ rw a (erase-Runs s v p)
    | inr a ↦ elim (Bool-cases (ltb c 0x80 && leb 0x20 c)) [
      | inl b ↦
          let printable : IsPrintable c = ground (arith, a, b) in
          rw (a, b)
            (on_system-Runs (print (c ∷ [])) (record s { line = s.line ++ (c ∷ []) })
              (print-Fine (c ∷ []) s.system v) (append-All s.line c p printable))
      | inr b ↦ rw (a, b) record { after = s; result = refl; valid = v; printable = p }
    ]
  ]

  handle_decoded-Runs :
      (key : Option DecodedKey) (s : Shell K)
      → IsValid s.system.writer
      → All IsPrintable s.line
      → Runs (handle_decoded decoder env meanwhile key s)
  unfolding handle_key
  handle_decoded-Runs none s v p = record { after = s; result = refl; valid = v; printable = p }
  handle_decoded-Runs (some (unicode c)) s v p =
      if-Runs ((c == 13) || (c == 10)) (enter-Runs s v p) (type_char-Runs c s v p)
  handle_decoded-Runs (some backspace_key) s v p = erase-Runs s v p
  handle_decoded-Runs (some raw_key) s v p = record {
    after = s;
    result = refl;
    valid = v;
    printable = p;
  }

  -- Where the memory map is stored with regions in order, the heap has room for the game's thread, and
  -- other threads keep the screen valid during a system call: whatever scancodes come, the loop of the
  -- shell does not panic, its line stays printable ASCII and the screen's cursor in its range. That the
  -- line grows in the heap is not modelled.
  pub run_loop-Runs :
      (vs : List ℕ) (s : Shell K)
      → IsValid s.system.writer
      → All IsPrintable s.line
      → Runs (run_loop decoder env meanwhile vs s)
  unfolding run_loop handle_scancode
  run_loop-Runs [] s v p = record { after = s; result = refl; valid = v; printable = p }
  run_loop-Runs (x ∷ vs) s v p =
      bind-Runs (handle_scancode decoder env meanwhile x s) (run_loop decoder env meanwhile vs)
        (handle_decoded-Runs _ _ v p) (λ t u q. run_loop-Runs vs t u q)
