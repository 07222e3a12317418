-- ===== src/Sync.antt =====
-- src/sync.rs: `KMutex` on one core, as the interleavings of the threads that lock and drop it.
-- A state holds the mutex, the interrupt flag, and for each thread where it stands in `lock` or
-- `drop`. Between two steps the timer may switch to any runnable thread, if interrupts are enabled;
-- with interrupts disabled nothing else runs, and so the `IrqMutex` of the scheduler is always free
-- when it is asked for. Callers are scheduled threads, and call `lock` with interrupts enabled.
pub mod Irq
pub mod Moves
pub mod Places
pub mod Queue
pub mod Turns
pub mod Wakeup
pub mod Exclusion
pub mod Deadlock
use molt_os.Prelude.{
  ℕ, ◌≡◌, Bool, true, false, Option, none, some, List, [], ◌∷◌, ◌++◌, ◌==◌, if◌then◌else◌,
}

-- Where a thread stands.
pub data Pc : Type 0 where
  -- It neither waits for the mutex nor holds it.
  outside : Pc
  -- `lock`: before the first `compare_exchange`, before `SCHEDULER.lock()`, before the second
  -- `compare_exchange`, before `waiters.lock().push_back(id)`, before the switch, and after it.
  fast slow recheck enqueue block asleep : Pc
  -- It holds a `KMutexGuard`.
  critical : Pc
  -- `drop`: before `waiters.lock()`, before `pop_front()`, before `unblock_thread(id)`, and before
  -- the guard of `waiters` is dropped, which is at the end of the `if let`.
  wake pop : Pc
  unblock : ℕ → Pc
  leave : Pc

pub record Machine : Type 0 where
  -- `KMutex`: `locked`, `waiters`, and which thread holds the spin lock of `waiters`.
  pub locked : Bool
  pub waiters : List ℕ
  pub waiters_lock : Option ℕ
  -- The scheduler's `blocked` flags and current thread, and the interrupt flag.
  pub blocked : ℕ → Bool
  pub running : ℕ
  pub irq : Bool
  pub pc : ℕ → Pc

abbrev pub update {ℓ} : {A : Type ℓ} → (ℕ → A) → ℕ → A → ℕ → A
update f t a u = if u == t then a else f u

-- The running thread goes on to `p`.
abbrev pub goto : Pc → Machine → Machine
goto p s = record s { pc = update s.pc s.running p }

-- `KMutex::new`, with thread `t` running and every thread outside.
abbrev pub start : ℕ → Machine
start t = record {
  locked = false;
  waiters = [];
  waiters_lock = none;
  blocked = λ u. false;
  running = t;
  irq = true;
  pc = λ u. outside;
}

-- `compare_exchange(false, true)`: the thread acquires the mutex or goes on to `otherwise`.
abbrev pub try_acquire : Pc → Machine → Machine
try_acquire otherwise s =
    if s.locked then goto otherwise s else goto critical (record s { locked = true; irq = true })

-- `block_current_and_prepare_switch`, `release_without_irq_restore` and `context_switch`, which
-- enables interrupts. `next` is the thread that the scheduler picks; with none to pick the machine
-- stops.
abbrev pub switch_away : Machine → ℕ → Option Machine
switch_away s next =
    let flags = update s.blocked s.running true in
    if flags next
    then none
    else some (record (goto asleep s) { blocked = flags; running = next; irq = true })

-- One step of the running thread, which stands at `p`; `none` while it spins on the lock of
-- `waiters`.
unfoldable pub advance_at : Pc → Machine → ℕ → Option Machine
advance_at outside s next = some (goto fast s)
advance_at fast s next = some (try_acquire slow s)
advance_at slow s next = some (goto recheck (record s { irq = false }))
advance_at recheck s next = some (try_acquire enqueue s)
advance_at enqueue s next = elim s.waiters_lock [
  | none ↦ some (goto block (record s { waiters = s.waiters ++ (s.running ∷ []) }))
  | some holder ↦ none
]
advance_at block s next = switch_away s next
advance_at asleep s next = some (goto fast s)
advance_at critical s next = some (goto wake (record s { locked = false }))
advance_at wake s next = elim s.waiters_lock [
  | none ↦ some (goto pop (record s { waiters_lock = some s.running }))
  | some holder ↦ none
]
advance_at pop s next = elim s.waiters [
  | [] ↦ some (goto leave s)
  | id ∷ rest ↦ some (goto (unblock id) (record s { waiters = rest }))
]
advance_at (unblock id) s next =
    some (goto leave (record s { blocked = update s.blocked id false }))
advance_at leave s next = some (goto outside (record s { waiters_lock = none }))

unfoldable pub advance : Machine → ℕ → Option Machine
advance s next = advance_at (s.pc s.running) s next

-- The running thread takes a step, or the timer interrupts it in favour of a runnable thread.
pub data Step (s s' : Machine) : Type 0 where
  run : (next : ℕ) → advance s next ≡ some s' → Step s s'
  preempt :
      (next : ℕ)
      → s.irq ≡ true
      → s.blocked next ≡ false
      → s' ≡ record s { running = next }
      → Step s s'

pub data Reach (s : Machine) : Machine → Type 0 where
  here : Reach s s
  after : {t u : Machine} → Reach s t → Step t u → Reach s u
