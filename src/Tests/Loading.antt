-- ===== src/Tests/Loading.antt =====
-- The disk, the archive and the system calls at concrete inputs.
use molt_os.Prelude.{ℕ, ◌+◌, ◌≡◌, refl, none, some, List, [], ◌∷◌, ok, ◌>>=◌, u64_max, arith}
use molt_os.Disk.Ata.{Ports}
use molt_os.Disk.Archive.{init, open_in}
use molt_os.Disk.Archive.Reports.{InitOutcome, init-Outcome}
use molt_os.Disk.Archive.Packed.{File, pack, lookup, entries, bodies}
use molt_os.Disk.Archive.Found.{open_in-pack}
use molt_os.Vga.Text.{Writer, write_string}
use molt_os.Syscall.{System, invoke, dispatch, syscall_handler}
use molt_os.Syscall.Answers.{Answered, invoke-Answered, invoke-overwritten}

-- No drive: every port reads ones. The state counts the accesses.
abbrev no_ports : Ports ℕ
no_ports = record { read = λ port d. (0xff, d + 1); write = λ port v d. d + 1 }

init-Outcome_example : InitOutcome none (init no_ports none 0)
init-Outcome_example = init-Outcome no_ports none 0

-- Two files, `a` and `b.wad`.
abbrev files : List File
files =
    record { name = 0x61 ∷ []; bytes = 1 ∷ [] }
    ∷ record { name = 0x62 ∷ 0x2e ∷ 0x77 ∷ 0x61 ∷ 0x64 ∷ []; bytes = 5 ∷ 6 ∷ 7 ∷ [] }
    ∷ []

-- `B.WAD` is found.
found : lookup files (0x42 ∷ 0x2e ∷ 0x57 ∷ 0x41 ∷ 0x44 ∷ []) ≡ some (5 ∷ 6 ∷ 7 ∷ [])
unfolding lookup
found = refl

open_in-pack_example :
    open_in (pack files) (0x42 ∷ 0x2e ∷ 0x57 ∷ 0x41 ∷ 0x44 ∷ [])
    ≡ ok (lookup files (0x42 ∷ 0x2e ∷ 0x57 ∷ 0x41 ∷ 0x44 ∷ []))
unfolding entries bodies
open_in-pack_example =
    open_in-pack files (0x42 ∷ 0x2e ∷ 0x57 ∷ 0x41 ∷ 0x44 ∷ [])
      (
        record { short = omega arith; name_bytes = ((omega arith, omega arith), tt) },
        (
          record {
            short = omega arith;
            name_bytes = (
              (omega arith, omega arith),
              (
                (omega arith, omega arith),
                (
                  (omega arith, omega arith),
                  ((omega arith, omega arith), ((omega arith, omega arith), tt)),
                ),
              ),
            );
          },
          tt,
        ),
      )
      (omega arith)

abbrev system : System
system = record {
  writer = record {
    column_position = 0;
    color = 14;
    buffer = λ r c. record { ascii_character = 32; color = 14 };
  };
  ticks = 123;
  syscall_return = 0;
}

invoke-Answered_example :
    (result : ℕ) × (printed : List ℕ) × (w : Writer) × Answered 999 0 system result printed
    × (write_string system.writer printed ≡ ok w)
    × (invoke 999 0 0 0 (λ t. ok t) system
        ≡ ok (result, record system { writer = w; syscall_return = result }))
invoke-Answered_example = invoke-Answered 999 0 0 0 system (omega arith)

-- The ticks are asked for, and another thread makes an unknown call meanwhile.
invoke-overwritten_example :
    (invoke 0 0 0 0 (syscall_handler 999 0 0 0) system
      ≡ ok (u64_max, record system { syscall_return = u64_max }))
    × (dispatch 999 0 0 0 (record system { syscall_return = 123 }) >>= (λ r. ok r.0) ≡ ok u64_max)
unfolding syscall_handler dispatch
invoke-overwritten_example =
    invoke-overwritten 0 0 0 0 999 0 0 0 system (record system { syscall_return = 123 })
      (record system { syscall_return = u64_max }) refl refl
