-- ===== src/Tests/Rotating.antt =====
-- The round-robin scheduler at concrete inputs.
use molt_os.Prelude.{ℕ, ◌≡◌, Option, none, some, List, [], ◌∷◌, length, ok, arith}
use molt_os.Scheduler.Thread.{Thread}
use molt_os.Scheduler.RoundRobin.Rotation.{ticks, running, GoRound, ticks-rotate}

abbrev threads : List Thread
threads = record { id = 1; context = 100 } ∷ record { id = 2; context = 200 } ∷ []

ticks-rotate_example :
    (switches : List (Option (ℕ × ℕ))) × (ticks 4 (running threads none) 7 (λ t. t)
      ≡ ok (running threads (some 1), switches))
    × (length switches ≡ 4)
    × GoRound threads 7 0 switches
ticks-rotate_example = ticks-rotate threads 3 7 (λ t. t) (omega arith)
