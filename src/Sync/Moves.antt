-- ===== src/Sync/Moves.antt =====
-- The steps of a thread in `lock` and `drop` of `KMutex` (src/sync.rs), one constructor for each.
use molt_os.Prelude.{
  ℕ, ◌≡◌, ◌⊎◌, refl, true, false, Option, none, some, List, [], ◌∷◌, ◌++◌, if◌then◌else◌, subst,
  Bool-cases, inl, inr,
}
use molt_os.Sync.{
  Pc, outside, fast, slow, recheck, enqueue, block, asleep, critical, wake, pop, unblock, leave,
  Machine, update, goto, try_acquire, switch_away, advance_at, advance,
}

pub data Move (s s' : Machine) : Type 0 where
  calls : s.pc s.running ≡ outside → s' ≡ goto fast s → Move s s'
  acquires :
      (s.pc s.running ≡ fast) ⊎ (s.pc s.running ≡ recheck)
      → s.locked ≡ false
      → s' ≡ goto critical (record s { locked = true; irq = true })
      → Move s s'
  contends : s.pc s.running ≡ fast → s.locked ≡ true → s' ≡ goto slow s → Move s s'
  takes_scheduler : s.pc s.running ≡ slow → s' ≡ goto recheck (record s { irq = false }) → Move s s'
  waits : s.pc s.running ≡ recheck → s.locked ≡ true → s' ≡ goto enqueue s → Move s s'
  enqueues :
      s.pc s.running ≡ enqueue
      → s.waiters_lock ≡ none
      → s' ≡ goto block (record s { waiters = s.waiters ++ (s.running ∷ []) })
      → Move s s'
  sleeps :
      (next : ℕ)
      → s.pc s.running ≡ block
      → update s.blocked s.running true next ≡ false
      → s' ≡ record (goto asleep s) {
        blocked = update s.blocked s.running true;
        running = next;
        irq = true;
      }
      → Move s s'
  resumes : s.pc s.running ≡ asleep → s' ≡ goto fast s → Move s s'
  unlocks : s.pc s.running ≡ critical → s' ≡ goto wake (record s { locked = false }) → Move s s'
  guards :
      s.pc s.running ≡ wake
      → s.waiters_lock ≡ none
      → s' ≡ goto pop (record s { waiters_lock = some s.running })
      → Move s s'
  pops_none : s.pc s.running ≡ pop → s.waiters ≡ [] → s' ≡ goto leave s → Move s s'
  pops :
      (id : ℕ) (rest : List ℕ)
      → s.pc s.running ≡ pop
      → s.waiters ≡ id ∷ rest
      → s' ≡ goto (unblock id) (record s { waiters = rest })
      → Move s s'
  wakes :
      (id : ℕ)
      → s.pc s.running ≡ unblock id
      → s' ≡ goto leave (record s { blocked = update s.blocked id false })
      → Move s s'
  leaves : s.pc s.running ≡ leave → s' ≡ goto outside (record s { waiters_lock = none }) → Move s s'

become : {s t : Machine} → some s ≡ some t → t ≡ s
become e = cc

acquire-Move :
    (s : Machine) (p : Pc) {s' : Machine}
    → (s.pc s.running ≡ fast) ⊎ (s.pc s.running ≡ recheck)
    → (s.locked ≡ true → s' ≡ goto p s → Move s s')
    → some (try_acquire p s) ≡ some s'
    → Move s s'
acquire-Move s p {s'} at lose e = elim (Bool-cases s.locked) [
  | inl q ↦ lose q (become (subst (λ b. some (if b then goto p s else won) ≡ some s') q e))
  | inr q ↦ acquires at q (become (subst (λ b. some (if b then goto p s else won) ≡ some s') q e))
]
  where
    won : Machine
    won = goto critical (record s { locked = true; irq = true })

sleep-Move :
    (s : Machine) (n : ℕ) {s' : Machine}
    → s.pc s.running ≡ block
    → switch_away s n ≡ some s'
    → Move s s'
sleep-Move s n {s'} at e = elim (Bool-cases (update s.blocked s.running true n)) [
  | inl q ↦ let e' : none ≡ some s' = rw q at e in cc
  | inr q ↦
      let e' : some (record (goto asleep s) {
        blocked = update s.blocked s.running true;
        running = n;
        irq = true;
      })
          ≡ some s' =
        rw q at e in
      sleeps n at q (become e')
]

-- A step that needs the lock of `waiters`.
guarded :
    (s t : Machine) (lock : Option ℕ) {s' : Machine}
    → s.waiters_lock ≡ lock
    → (s.waiters_lock ≡ none → s' ≡ t → Move s s')
    → elim lock [ none ↦ some t | some holder ↦ none ] ≡ some s'
    → Move s s'
guarded s t none q go e = go q (become e)
guarded s t (some holder) q go e = cc

pop-Move :
    (s : Machine) (ws : List ℕ) {s' : Machine}
    → s.pc s.running ≡ pop
    → s.waiters ≡ ws
    → elim ws [
      | [] ↦ some (goto leave s)
      | id ∷ rest ↦ some (goto (unblock id) (record s { waiters = rest }))
    ]
      ≡ some s'
    → Move s s'
pop-Move s [] at q e = pops_none at q (become e)
pop-Move s (id ∷ rest) at q e = pops id rest at q (become e)

advance_at-Move :
    (p : Pc) (s : Machine) (n : ℕ) {s' : Machine}
    → s.pc s.running ≡ p
    → advance_at p s n ≡ some s'
    → Move s s'
unfolding advance_at
advance_at-Move outside s n at e = calls at (become e)
advance_at-Move fast s n at e = acquire-Move s slow (inl at) (contends at) e
advance_at-Move slow s n at e = takes_scheduler at (become e)
advance_at-Move recheck s n at e = acquire-Move s enqueue (inr at) (waits at) e
advance_at-Move enqueue s n at e = guarded s _ s.waiters_lock refl (enqueues at) e
advance_at-Move block s n at e = sleep-Move s n at e
advance_at-Move asleep s n at e = resumes at (become e)
advance_at-Move critical s n at e = unlocks at (become e)
advance_at-Move wake s n at e = guarded s _ s.waiters_lock refl (guards at) e
advance_at-Move pop s n at e = pop-Move s s.waiters at refl e
advance_at-Move (unblock id) s n at e = wakes id at (become e)
advance_at-Move leave s n at e = leaves at (become e)

-- A step of the running thread is one of these.
pub advance-Move : (s : Machine) (next : ℕ) {s' : Machine} → advance s next ≡ some s' → Move s s'
unfolding advance
advance-Move s n e = advance_at-Move (s.pc s.running) s n refl e
