-- ===== src/Tests/Keyboard.antt =====
-- The ring of key events at concrete inputs.
use molt_os.Prelude.{
  ◌+◌, ◌-◌, ◌*◌, ◌/◌, ◌%◌, ◌^◌, ◌≤◌, ◌<◌, ℕ, ◌≡◌, ◌≢◌, refl, true, false, none, some, List, [], ◌∷◌,
  ◌++◌, ascii, ok, arith,
}
use molt_os.Doom.Keys.{KeyEvent, KeyRing, Keyboard, new, key_of, scancode_to_doom}
use molt_os.Doom.Keys.Ring.{Use, press, read, contents, use_ring, use_queue, new-queue}
use molt_os.Doom.Engine.{dg_sleep_ms, dg_get_ticks_ms}
use molt_os.Doom.Engine.Waiting.{IsTicking, elapsed, dg_sleep_ms-Waits}
use molt_os.Doom.Palette.Loaded.{Loaded}

abbrev small_lump : List ℕ
small_lump =
    ascii "IWAD"
    ++ (1 ∷ 0 ∷ 0 ∷ 0 ∷ 12 ∷ 0 ∷ 0 ∷ 0 ∷ 12 ∷ 0 ∷ 0 ∷ 0 ∷ 4 ∷ 0 ∷ 0 ∷ 0 ∷ [])
    ++ ascii "PLAYPAL"
    ++ (0 ∷ [])

abbrev stroke : ℕ → ℕ → KeyEvent
stroke pressed key = record { pressed = pressed; key = key }

abbrev uses : List Use
uses = press (stroke 1 97) ∷ press (stroke 0 97) ∷ read ∷ read ∷ read ∷ []

-- The reads return the two events in order, and then nothing.
use_queue-uses :
    use_queue [] uses ≡ ([], (1, some (stroke 1 97)) ∷ (1, some (stroke 0 97)) ∷ (0, none) ∷ [])
unfolding use_queue
use_queue-uses = refl

new-queue_example :
    (r : KeyRing) × (use_ring new uses ≡ ok (r, (use_queue [] uses).1))
    × (contents r ≡ (use_queue [] uses).0)
new-queue_example = new-queue uses

abbrev idle : Keyboard
idle = record { extended = false; ring = new }

up_arrow : scancode_to_doom 0x48 true ≡ 0xad
unfolding scancode_to_doom key_of
up_arrow = refl

up_arrow_is_mapped : scancode_to_doom 0x48 true ≢ 0
up_arrow_is_mapped = omega (arith, up_arrow)

-- A clock that ticks at every other reading.
half_speed : IsTicking (λ i. 5 + i / 2) 2
half_speed = record { grows = λ i. omega arith; ticks = λ i. omega arith }

dg_sleep_ms-Waits_example :
    (r : ℕ) × (dg_sleep_ms 9 (λ i. 5 + i / 2) 35 ≡ ok (some r))
    × (8 ≤ 5 + r / 2)
    × ((j : ℕ) → 1 ≤ j → j < r → 5 + j / 2 < 8)
    × (x : ℕ) × (y : ℕ) × (dg_get_ticks_ms 5 ≡ ok x)
    × (dg_get_ticks_ms (5 + r / 2) ≡ ok y)
    × (elapsed x y ≡ (5 + r / 2 - 5) * 10 % 2 ^ 32)
dg_sleep_ms-Waits_example =
    dg_sleep_ms-Waits (λ i. 5 + i / 2) 2 35 9 half_speed (omega arith) (omega arith)
