-- ===== src/Sync/Deadlock.antt =====
-- `KMutex` (src/sync.rs) can stop the machine: `drop` holds the spin lock of `waiters` with
-- interrupts enabled until the end of its `if let`, and `lock` asks for it with interrupts disabled.
use molt_os.Prelude.{ℕ, ◌≡◌, refl, true, false, none, some, [], ◌∷◌, ◌++◌, ==_iff, subst}
use molt_os.Sync.{
  fast, slow, recheck, enqueue, block, Machine, update, goto, advance_at, advance, Step, run,
  preempt, Reach, here, after,
}

-- No thread can take a step, and no interrupt can come.
abbrev pub IsStuck : Machine → Type 0
IsStuck s = (s' : Machine) → ¬ Step s s'

update_self {ℓ} : {A : Type ℓ} (f : ℕ → A) (t : ℕ) (a : A) → update f t a t ≡ a
update_self f t a = rw ((==_iff t t).1 refl)

-- A thread that asks for the held lock of `waiters` with interrupts disabled spins for ever.
spinning-IsStuck :
    (s : Machine) (holder : ℕ)
    → s.pc s.running ≡ enqueue
    → s.waiters_lock ≡ some holder
    → s.irq ≡ false
    → IsStuck s
unfolding advance advance_at
spinning-IsStuck s holder at held off s' (run n e) =
    let e' : advance_at enqueue s n ≡ some s' = subst (λ p. advance_at p s n ≡ some s') at e in
    let e'' : none ≡ some s' =
      subst
        (λ l.
          elim l [
            | none ↦ some (goto block (record s { waiters = s.waiters ++ (s.running ∷ []) }))
            | some h ↦ none
          ]
          ≡ some s')
        held e' in
    cc e''
spinning-IsStuck s holder at held off s' (preempt n on _ _) = cc

-- The states that the caller of `lock` goes through.
abbrev at_slow : Machine → Machine
at_slow s = goto slow s

abbrev at_recheck : Machine → Machine
at_recheck s = goto recheck (record (at_slow s) { irq = false })

abbrev at_enqueue : Machine → Machine
at_enqueue s = goto enqueue (at_recheck s)

step_fast : (s : Machine) → s.pc s.running ≡ fast → s.locked ≡ true → advance s 0 ≡ some (at_slow s)
unfolding advance advance_at
step_fast s at l = rw (at, l)

step_slow : (s : Machine) → advance (at_slow s) 0 ≡ some (at_recheck s)
unfolding advance advance_at
step_slow s = rw (update_self s.pc s.running slow)

step_recheck : (s : Machine) → s.locked ≡ true → advance (at_recheck s) 0 ≡ some (at_enqueue s)
unfolding advance advance_at
step_recheck s l = rw (update_self (at_slow s).pc s.running recheck, l)

-- Where a thread was interrupted in `drop` with the lock of `waiters`, and another holds the mutex,
-- a third that calls `lock` brings the machine to a state from which no thread can go on.
pub contended_drop_deadlocks :
    (s : Machine) (dropper : ℕ)
    → s.pc s.running ≡ fast
    → s.locked ≡ true
    → s.waiters_lock ≡ some dropper
    → (s' : Machine) × Reach s s' × IsStuck s'
contended_drop_deadlocks s dropper at l held = (
  at_enqueue s,
  after (after (after here (run 0 (step_fast s at l))) (run 0 (step_slow s)))
      (run 0 (step_recheck s l)),
  spinning-IsStuck (at_enqueue s) dropper (update_self (at_recheck s).pc s.running enqueue) held
      refl,
)
