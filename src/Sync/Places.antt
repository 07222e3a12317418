-- ===== src/Sync/Places.antt =====
-- Where the threads of `KMutex` (src/sync.rs) can stand together, whatever the interleaving.
use molt_os.Prelude.{ℕ, ◌≡◌, refl, Bool, true, false, some, arith}
use molt_os.Sync.{
  Pc, recheck, enqueue, block, asleep, critical, pop, unblock, leave, Machine, start, Step, run,
  preempt, Reach, here, after,
}
use molt_os.Sync.Moves.{
  Move, calls, acquires, contends, takes_scheduler, waits, enqueues, sleeps, resumes, unlocks,
  guards, pops_none, pops, wakes, leaves, advance-Move,
}

-- With interrupts disabled, under the lock of the scheduler.
abbrev pub masked : Pc → Bool
masked recheck = true
masked enqueue = true
masked block = true
masked p = false

-- With the lock of `waiters`, in `drop`.
abbrev pub guarding : Pc → Bool
guarding pop = true
guarding (unblock id) = true
guarding leave = true
guarding p = false

pub record Placed (s : Machine) : Type 0 where
  pub alone : (t : ℕ) → masked (s.pc t) ≡ true → (t ≡ s.running) × (s.irq ≡ false)
  pub guards_it : (t : ℕ) → guarding (s.pc t) ≡ true → s.waiters_lock ≡ some t
  pub awake : s.blocked s.running ≡ false
  pub sleeping : (t : ℕ) → s.blocked t ≡ true → s.pc t ≡ asleep
  pub waiting : (t : ℕ) → s.pc t ≡ enqueue → s.locked ≡ true
  pub held : s.locked ≡ true → (t : ℕ) × (s.pc t ≡ critical)

Move-alone :
    {s s' : Machine}
    → Move s s'
    → Placed s
    → (t : ℕ) → masked (s'.pc t) ≡ true
    → (t ≡ s'.running) × (s'.irq ≡ false)
Move-alone {s} (calls at e) v t = rw e (λ h. ground (arith, v.alone t, v.alone s.running))
Move-alone {s} (acquires at free e) v t = rw e (λ h. ground (arith, v.alone t, v.alone s.running))
Move-alone {s} (contends at l e) v t = rw e (λ h. ground (arith, v.alone t, v.alone s.running))
Move-alone {s} (takes_scheduler at e) v t = rw e (λ h. ground (arith, v.alone t, v.alone s.running))
Move-alone {s} (waits at l e) v t = rw e (λ h. ground (arith, v.alone t, v.alone s.running))
Move-alone {s} (enqueues at g e) v t = rw e (λ h. ground (arith, v.alone t, v.alone s.running))
Move-alone {s} (sleeps n at b e) v t = rw e (λ h. ground (arith, v.alone t, v.alone s.running))
Move-alone {s} (resumes at e) v t = rw e (λ h. ground (arith, v.alone t, v.alone s.running))
Move-alone {s} (unlocks at e) v t = rw e (λ h. ground (arith, v.alone t, v.alone s.running))
Move-alone {s} (guards at g e) v t = rw e (λ h. ground (arith, v.alone t, v.alone s.running))
Move-alone {s} (pops_none at w e) v t = rw e (λ h. ground (arith, v.alone t, v.alone s.running))
Move-alone {s} (pops id rest at w e) v t = rw e (λ h. ground (arith, v.alone t, v.alone s.running))
Move-alone {s} (wakes id at e) v t = rw e (λ h. ground (arith, v.alone t, v.alone s.running))
Move-alone {s} (leaves at e) v t = rw e (λ h. ground (arith, v.alone t, v.alone s.running))

Move-guards_it :
    {s s' : Machine}
    → Move s s'
    → Placed s
    → (t : ℕ) → guarding (s'.pc t) ≡ true
    → s'.waiters_lock ≡ some t
Move-guards_it {s} (calls at e) v t =
    rw e (λ h. ground (arith, v.guards_it t, v.guards_it s.running))
Move-guards_it {s} (acquires at free e) v t =
    rw e (λ h. ground (arith, v.guards_it t, v.guards_it s.running))
Move-guards_it {s} (contends at l e) v t =
    rw e (λ h. ground (arith, v.guards_it t, v.guards_it s.running))
Move-guards_it {s} (takes_scheduler at e) v t =
    rw e (λ h. ground (arith, v.guards_it t, v.guards_it s.running))
Move-guards_it {s} (waits at l e) v t =
    rw e (λ h. ground (arith, v.guards_it t, v.guards_it s.running))
Move-guards_it {s} (enqueues at g e) v t =
    rw e (λ h. ground (arith, v.guards_it t, v.guards_it s.running))
Move-guards_it {s} (sleeps n at b e) v t =
    rw e (λ h. ground (arith, v.guards_it t, v.guards_it s.running))
Move-guards_it {s} (resumes at e) v t =
    rw e (λ h. ground (arith, v.guards_it t, v.guards_it s.running))
Move-guards_it {s} (unlocks at e) v t =
    rw e (λ h. ground (arith, v.guards_it t, v.guards_it s.running))
Move-guards_it {s} (guards at g e) v t =
    rw e (λ h. ground (arith, v.guards_it t, v.guards_it s.running))
Move-guards_it {s} (pops_none at w e) v t =
    rw e (λ h. ground (arith, v.guards_it t, v.guards_it s.running))
Move-guards_it {s} (pops id rest at w e) v t =
    rw e (λ h. ground (arith, v.guards_it t, v.guards_it s.running))
Move-guards_it {s} (wakes id at e) v t =
    rw e (λ h. ground (arith, v.guards_it t, v.guards_it s.running))
Move-guards_it {s} (leaves at e) v t =
    rw e (λ h. ground (arith, v.guards_it t, v.guards_it s.running))

Move-awake : {s s' : Machine} → Move s s' → Placed s → s'.blocked s'.running ≡ false
Move-awake {s} (calls at e) v = rw e (ground (arith, v.awake))
Move-awake {s} (acquires at free e) v = rw e (ground (arith, v.awake))
Move-awake {s} (contends at l e) v = rw e (ground (arith, v.awake))
Move-awake {s} (takes_scheduler at e) v = rw e (ground (arith, v.awake))
Move-awake {s} (waits at l e) v = rw e (ground (arith, v.awake))
Move-awake {s} (enqueues at g e) v = rw e (ground (arith, v.awake))
Move-awake {s} (sleeps n at b e) v = rw e (ground (arith, v.awake))
Move-awake {s} (resumes at e) v = rw e (ground (arith, v.awake))
Move-awake {s} (unlocks at e) v = rw e (ground (arith, v.awake))
Move-awake {s} (guards at g e) v = rw e (ground (arith, v.awake))
Move-awake {s} (pops_none at w e) v = rw e (ground (arith, v.awake))
Move-awake {s} (pops id rest at w e) v = rw e (ground (arith, v.awake))
Move-awake {s} (wakes id at e) v = rw e (ground (arith, v.awake))
Move-awake {s} (leaves at e) v = rw e (ground (arith, v.awake))

Move-sleeping :
    {s s' : Machine} → Move s s' → Placed s → (t : ℕ) → s'.blocked t ≡ true → s'.pc t ≡ asleep
Move-sleeping {s} (calls at e) v t = rw e (λ h. ground (arith, v.awake, v.sleeping t))
Move-sleeping {s} (acquires at free e) v t = rw e (λ h. ground (arith, v.awake, v.sleeping t))
Move-sleeping {s} (contends at l e) v t = rw e (λ h. ground (arith, v.awake, v.sleeping t))
Move-sleeping {s} (takes_scheduler at e) v t = rw e (λ h. ground (arith, v.awake, v.sleeping t))
Move-sleeping {s} (waits at l e) v t = rw e (λ h. ground (arith, v.awake, v.sleeping t))
Move-sleeping {s} (enqueues at g e) v t = rw e (λ h. ground (arith, v.awake, v.sleeping t))
Move-sleeping {s} (sleeps n at b e) v t = rw e (λ h. ground (arith, v.awake, v.sleeping t))
Move-sleeping {s} (resumes at e) v t = rw e (λ h. ground (arith, v.awake, v.sleeping t))
Move-sleeping {s} (unlocks at e) v t = rw e (λ h. ground (arith, v.awake, v.sleeping t))
Move-sleeping {s} (guards at g e) v t = rw e (λ h. ground (arith, v.awake, v.sleeping t))
Move-sleeping {s} (pops_none at w e) v t = rw e (λ h. ground (arith, v.awake, v.sleeping t))
Move-sleeping {s} (pops id rest at w e) v t = rw e (λ h. ground (arith, v.awake, v.sleeping t))
Move-sleeping {s} (wakes id at e) v t = rw e (λ h. ground (arith, v.awake, v.sleeping t))
Move-sleeping {s} (leaves at e) v t = rw e (λ h. ground (arith, v.awake, v.sleeping t))

Move-waiting :
    {s s' : Machine} → Move s s' → Placed s → (t : ℕ) → s'.pc t ≡ enqueue → s'.locked ≡ true
Move-waiting {s} (calls at e) v t =
    rw e (λ h. ground (arith, v.waiting t, v.alone t, v.alone s.running))
Move-waiting {s} (acquires at free e) v t =
    rw e (λ h. ground (arith, v.waiting t, v.alone t, v.alone s.running))
Move-waiting {s} (contends at l e) v t =
    rw e (λ h. ground (arith, v.waiting t, v.alone t, v.alone s.running))
Move-waiting {s} (takes_scheduler at e) v t =
    rw e (λ h. ground (arith, v.waiting t, v.alone t, v.alone s.running))
Move-waiting {s} (waits at l e) v t =
    rw e (λ h. ground (arith, v.waiting t, v.alone t, v.alone s.running))
Move-waiting {s} (enqueues at g e) v t =
    rw e (λ h. ground (arith, v.waiting t, v.alone t, v.alone s.running))
Move-waiting {s} (sleeps n at b e) v t =
    rw e (λ h. ground (arith, v.waiting t, v.alone t, v.alone s.running))
Move-waiting {s} (resumes at e) v t =
    rw e (λ h. ground (arith, v.waiting t, v.alone t, v.alone s.running))
Move-waiting {s} (unlocks at e) v t =
    rw e (λ h. ground (arith, v.waiting t, v.alone t, v.alone s.running))
Move-waiting {s} (guards at g e) v t =
    rw e (λ h. ground (arith, v.waiting t, v.alone t, v.alone s.running))
Move-waiting {s} (pops_none at w e) v t =
    rw e (λ h. ground (arith, v.waiting t, v.alone t, v.alone s.running))
Move-waiting {s} (pops id rest at w e) v t =
    rw e (λ h. ground (arith, v.waiting t, v.alone t, v.alone s.running))
Move-waiting {s} (wakes id at e) v t =
    rw e (λ h. ground (arith, v.waiting t, v.alone t, v.alone s.running))
Move-waiting {s} (leaves at e) v t =
    rw e (λ h. ground (arith, v.waiting t, v.alone t, v.alone s.running))

Move-held :
    {s s' : Machine} → Move s s' → Placed s → s'.locked ≡ true → (t : ℕ) × (s'.pc t ≡ critical)
Move-held {s} (calls at e) v = rw e (λ q. let (t, c) = v.held q in (t, ground arith))
Move-held {s} (acquires at free e) v = rw e (λ q. (s.running, ground arith))
Move-held {s} (contends at l e) v = rw e (λ q. let (t, c) = v.held q in (t, ground arith))
Move-held {s} (takes_scheduler at e) v = rw e (λ q. let (t, c) = v.held q in (t, ground arith))
Move-held {s} (waits at l e) v = rw e (λ q. let (t, c) = v.held q in (t, ground arith))
Move-held {s} (enqueues at g e) v = rw e (λ q. let (t, c) = v.held q in (t, ground arith))
Move-held {s} (sleeps n at b e) v = rw e (λ q. let (t, c) = v.held q in (t, ground arith))
Move-held {s} (resumes at e) v = rw e (λ q. let (t, c) = v.held q in (t, ground arith))
Move-held {s} (unlocks at e) v = rw e (λ q. cc)
Move-held {s} (guards at g e) v = rw e (λ q. let (t, c) = v.held q in (t, ground arith))
Move-held {s} (pops_none at w e) v = rw e (λ q. let (t, c) = v.held q in (t, ground arith))
Move-held {s} (pops id rest at w e) v = rw e (λ q. let (t, c) = v.held q in (t, ground arith))
Move-held {s} (wakes id at e) v = rw e (λ q. let (t, c) = v.held q in (t, ground arith))
Move-held {s} (leaves at e) v = rw e (λ q. let (t, c) = v.held q in (t, ground arith))

Move-Placed : {s s' : Machine} → Move s s' → Placed s → Placed s'
Move-Placed m v = record {
  alone = Move-alone m v;
  guards_it = Move-guards_it m v;
  awake = Move-awake m v;
  sleeping = Move-sleeping m v;
  waiting = Move-waiting m v;
  held = Move-held m v;
}

-- The timer switches only with interrupts enabled, so no thread stands with them disabled.
preempt-Placed :
    {s : Machine} (next : ℕ)
    → s.irq ≡ true
    → s.blocked next ≡ false
    → Placed s
    → Placed (record s { running = next })
preempt-Placed {s} next on free v = record {
  alone = λ t h. let (_, off) = v.alone t h in cc;
  guards_it = v.guards_it;
  awake = free;
  sleeping = v.sleeping;
  waiting = v.waiting;
  held = v.held;
}

Step-Placed : {s s' : Machine} → Step s s' → Placed s → Placed s'
Step-Placed {s} (run n e) v = Move-Placed (advance-Move s n e) v
Step-Placed (preempt n on free e) v = rw e (preempt-Placed n on free v)

start-Placed : (t : ℕ) → Placed (start t)
start-Placed t = record {
  alone = λ u h. cc;
  guards_it = λ u h. cc;
  awake = refl;
  sleeping = λ u h. cc;
  waiting = λ u h. cc;
  held = λ h. cc;
}

pub Reach-Placed : (t : ℕ) {s : Machine} → Reach (start t) s → Placed s
Reach-Placed t here = start-Placed t
Reach-Placed t (after r st) = Step-Placed st (Reach-Placed t r)
