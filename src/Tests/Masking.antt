-- ===== src/Tests/Masking.antt =====
-- `IrqMutex` at a concrete interleaving.
use molt_os.Prelude.{ℕ, ◌≡◌, refl, true, false, none, some}
use molt_os.Sync.Irq.{
  outside, checked, asking, holding, released, Core, drop, act, Machine, start, goto, Reach, here,
  after, run, interrupt, handle,
}
use molt_os.Sync.Irq.Alone.{Reach-free}
use molt_os.Sync.Irq.Found.{found}

-- Thread 0 has asked whether interrupts are enabled, and is interrupted; the handler asks too, and
-- then for the spin lock.
abbrev interrupted : Machine
interrupted = record (goto (checked true) (record { held = false; irq = true }) (start 0)) {
  core = record { held = false; irq = false };
  handler = some (asking false);
}

Reach-interrupted : Reach (start 0) interrupted
unfolding act
Reach-interrupted =
    let r : Reach (start 0) (goto (checked true) (record { held = false; irq = true }) (start 0)) =
      after here (run drop (checked true) (record { held = false; irq = true }) refl refl refl) in
    let off : Core = record { held = false; irq = false } in
    after
      (after (after r (interrupt refl refl refl))
        (handle outside (checked false) off refl refl refl))
      (handle (checked false) (asking false) off refl refl refl)

Reach-free_example :
    (interrupted.place 0 ≡ asking false → interrupted.core.held ≡ false)
    × (interrupted.handler ≡ some (asking false) → interrupted.core.held ≡ false)
    × ((u : ℕ)
        → interrupted.place u ≡ holding false
        → (u ≡ 0) × (interrupted.core.irq ≡ false) × (interrupted.handler ≡ none))
    × (interrupted.place 0 ≡ released false
        → (c : Core) × (act (released false) drop interrupted.core ≡ some (outside, c))
          × (c.irq ≡ found Reach-interrupted 0))
    × (interrupted.handler ≡ some (released false)
        → (c : Core) × (act (released false) drop interrupted.core ≡ some (outside, c))
          × (c.irq ≡ false))
Reach-free_example = Reach-free 0 Reach-interrupted false
