-- ===== src/Tests/Shelling.antt =====
-- The shell with a decoder that takes a byte as its character.
use molt_os.Prelude.{
  ℕ, ◌-◌, ◌≡◌, refl, ◌==◌, ◌&&◌, if◌then◌else◌, false, some, List, [], ◌∷◌, ok, ◌>>=◌, arith,
}
use molt_os.Memory.{usable}
use molt_os.Scheduler.Global.{new}
use molt_os.Vga.Text.{blank, buffer_height}
use molt_os.Task.Shell.{Shell, Surroundings, Decoder, unicode, type_char, erase, run_loop}
use molt_os.Task.Shell.Editing.{IsReady, Runs, run_loop-Runs}
use molt_os.Task.Shell.Erasing.{type_char-erase}

abbrev plain : Decoder Unit
plain = record { decode = λ k v. (k, some (unicode v)) }

-- The cursor is after the prompt.
abbrev shell : List ℕ → Shell Unit
shell line = record {
  keyboard = tt;
  line = line;
  launched = false;
  system = record {
    writer = record {
      column_position = 8;
      color = 14;
      buffer = λ r c. record { ascii_character = 32; color = 14 };
    };
    ticks = 123;
    syscall_return = 0;
  };
  scheduler = new 7;
  next_thread = 1;
  memory = λ a. 0;
}

abbrev surroundings : Surroundings
surroundings = record {
  memory_map = some (record { start = 4096; stop = 12288; region_type = usable } ∷ []);
  place = some (0x100000, 0x80000);
  doom_entry = 0x1234;
}

surroundings-IsReady : IsReady surroundings
surroundings-IsReady = record {
  regions = record { start = 4096; stop = 12288; region_type = usable } ∷ [];
  stored = refl;
  ordered = (omega arith, tt);
  start = 0x100000;
  ctx = 0x80000;
  allocated = refl;
  placed = record {
    room = omega arith;
    in_word = omega arith;
    apart = λ a low high k lt e. omega arith;
  };
}

run_loop-Runs_example :
    Runs (run_loop plain surroundings (λ s. ok s) (b'u' ∷ 13 ∷ 0x7f ∷ []) (shell []))
run_loop-Runs_example =
    run_loop-Runs plain surroundings (λ s. ok s) surroundings-IsReady
      (λ s v. record { after = s; result = refl; valid = v }) (b'u' ∷ 13 ∷ 0x7f ∷ []) (shell [])
      (omega arith) tt

type_char-erase_example :
    (s' : Shell Unit) × (type_char b'x' (shell (b'a' ∷ [])) >>= erase ≡ ok s')
    × (s'.line ≡ b'a' ∷ [])
    × (s'.system.writer.column_position ≡ 8)
    × ((row col : ℕ)
        → s'.system.writer.buffer row col ≡ (
            if row == buffer_height - 1 && col == 8
            then blank (shell []).system.writer
            else (shell []).system.writer.buffer row col))
type_char-erase_example =
    type_char-erase b'x' (shell (b'a' ∷ [])) (omega arith, omega arith) (omega arith)
