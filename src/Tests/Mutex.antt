-- ===== src/Tests/Mutex.antt =====
-- `KMutex` at concrete interleavings.
use molt_os.Prelude.{ℕ, ◌≡◌, ◌≢◌, refl, true, false, some, [], ◌∷◌}
use molt_os.Sync.{
  fast, slow, recheck, enqueue, block, asleep, update, pop, critical, wake, Machine, start, goto,
  advance, advance_at, run, preempt, Reach, here, after,
}
use molt_os.Sync.Exclusion.{IsExclusive, Reach-IsExclusive}
use molt_os.Sync.Queue.{Remembered, Attended}
use molt_os.Sync.Wakeup.{Reach-Remembers}
use molt_os.Sync.Deadlock.{IsStuck, contended_drop_deadlocks}

-- The state after one step of the running thread, and after an interrupt.
abbrev called : Machine → Machine
called s = goto fast s

abbrev locked : Machine → Machine
locked s = goto critical (record s { locked = true; irq = true })

abbrev interrupted : ℕ → Machine → Machine
interrupted t s = record s { running = t }

-- Thread 0 locks, drops its guard, and is interrupted with the lock of `waiters`. Thread 1 locks
-- and is interrupted. Thread 2 calls `lock`.
abbrev held : Machine
held = locked (called (start 0))

abbrev dropping : Machine
dropping = goto pop (record (goto wake (record held { locked = false })) { waiters_lock = some 0 })

abbrev second_holder : Machine
second_holder = locked (called (interrupted 1 dropping))

abbrev contended : Machine
contended = called (interrupted 2 second_holder)

Reach-held : Reach (start 0) held
unfolding advance advance_at
Reach-held = after (after here (run 0 refl)) (run 0 refl)

Reach-second_holder : Reach (start 0) second_holder
unfolding advance advance_at
Reach-second_holder =
    after
      (after (after (after (after Reach-held (run 0 refl)) (run 0 refl)) (preempt 1 refl refl refl))
        (run 0 refl))
      (run 0 refl)

Reach-contended : Reach (start 0) contended
unfolding advance advance_at
Reach-contended = after (after Reach-second_holder (preempt 2 refl refl refl)) (run 0 refl)

Reach-IsExclusive_example : IsExclusive contended
Reach-IsExclusive_example = Reach-IsExclusive 0 Reach-contended

contended_drop_deadlocks_example : (s' : Machine) × Reach contended s' × IsStuck s'
contended_drop_deadlocks_example = contended_drop_deadlocks contended 0 refl refl refl

-- The holder is interrupted, and thread 1 calls `lock`, waits and falls asleep.
abbrev queued : Machine
queued =
    goto block
      (record (goto enqueue
        (goto recheck (record (goto slow (called (interrupted 1 held))) { irq = false }))) {
          waiters = 1 ∷ [];
        })

abbrev waiting : Machine
waiting = record (goto asleep queued) {
  blocked = update queued.blocked 1 true;
  running = 0;
  irq = true;
}

Reach-waiting : Reach (start 0) (waiting)
unfolding advance advance_at
Reach-waiting =
    let r = after (after Reach-held (preempt 1 refl refl refl)) (run 0 refl) in
    after (after (after (after (after r (run 0 refl)) (run 0 refl)) (run 0 refl)) (run 0 refl))
      (run 0 refl)

Reach-Remembers_example :
    ((u : ℕ) → waiting.blocked u ≡ true → (waiting.pc u ≡ asleep) × Remembered waiting u)
    × (waiting.waiters ≢ [] → Attended waiting)
Reach-Remembers_example = Reach-Remembers 0 Reach-waiting
