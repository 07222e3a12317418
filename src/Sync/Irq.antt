-- ===== src/Sync/Irq.antt =====
-- src/sync.rs: `IrqMutex` on one core, as the interleavings of the threads that lock it and of an
-- interrupt handler that locks it too. The spin lock inside it is the crate's: taken or free. Nobody
-- asks for the mutex while holding it.
pub mod Alone
pub mod Found
use molt_os.Prelude.{ℕ, ◌≡◌, Bool, true, false, ◌||◌, if◌then◌else◌, Option, none, some, Checked}
use molt_os.Sync.{update}

-- Where a thread or the handler stands; a guard keeps `was_enabled`.
pub data Place : Type 0 where
  -- It has no guard.
  outside : Place
  -- `lock`: after `are_enabled()`, and after `disable()`.
  checked asking : Bool → Place
  -- It holds a guard.
  holding : Bool → Place
  -- `drop`: after the spin lock is released, before the flag is restored.
  released : Bool → Place
  -- After `release_without_irq_restore`, before `context_switch`.
  switching : Place

-- The spin lock and the interrupt flag.
pub record Core : Type 0 where
  pub held : Bool
  pub irq : Bool

-- What is done with a guard.
pub data Ending : Type 0 where
  drop release_without_irq_restore : Ending

-- The next action on the mutex from a place; `none` while it spins on the spin lock. A thread that
-- is switching goes on by the switch.
unfoldable pub act : Place → Ending → Core → Option (Place × Core)
act outside way c = some (checked c.irq, c)
act (checked was) way c = some (asking was, record c { irq = false })
act (asking was) way c = if c.held then none else some (holding was, record c { held = true })
act (holding was) drop c = some (released was, record c { held = false })
act (holding was) release_without_irq_restore c = some (switching, record c { held = false })
act (released was) way c = some (outside, if was then record c { irq = true } else c)
act switching way c = none

-- The handler's place is `none` while no interrupt is handled.
pub record Machine : Type 0 where
  pub core : Core
  pub running : ℕ
  pub place : ℕ → Place
  pub handler : Option Place

-- `IrqMutex::new`, with thread `t` running.
abbrev pub start : ℕ → Machine
start t = record {
  core = record { held = false; irq = true };
  running = t;
  place = λ u. outside;
  handler = none;
}

abbrev pub goto : Place → Core → Machine → Machine
goto p c s = record s { core = c; place = update s.place s.running p }

-- A handler does not switch while it holds a guard: it drops it.
pub data Step (s s' : Machine) : Type 0 where
  run :
      (way : Ending) (p : Place) (c : Core)
      → s.handler ≡ none
      → act (s.place s.running) way s.core ≡ some (p, c)
      → s' ≡ goto p c s
      → Step s s'
  -- The thread sets the flag itself.
  set_flag :
      (on : Bool)
      → s.handler ≡ none
      → s.place s.running ≡ outside
      → s' ≡ record s { core = record s.core { irq = on } }
      → Step s s'
  -- `context_switch`, which enables interrupts.
  switch :
      (next : ℕ)
      → s.handler ≡ none
      → s.place s.running ≡ switching
      → s' ≡ record (goto outside (record s.core { irq = true }) s) { running = next }
      → Step s s'
  -- An interrupt, which the processor takes with the flag set and handles with it clear.
  interrupt :
      s.handler ≡ none
      → s.core.irq ≡ true
      → s' ≡ record s { core = record s.core { irq = false }; handler = some outside }
      → Step s s'
  handle :
      (p p' : Place) (c : Core)
      → s.handler ≡ some p
      → act p drop s.core ≡ some (p', c)
      → s' ≡ record s { core = c; handler = some p' }
      → Step s s'
  -- The handler returns to a thread that was interrupted, or switches to one.
  return :
      (next : ℕ)
      → s.handler ≡ some outside
      → s' ≡ record s { core = record s.core { irq = true }; running = next; handler = none }
      → Step s s'

pub data Reach (s : Machine) : Machine → Type 0 where
  here : Reach s s
  after : {t u : Machine} → Reach s t → Step t u → Reach s u
