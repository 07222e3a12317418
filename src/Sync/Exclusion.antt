-- ===== src/Sync/Exclusion.antt =====
-- Mutual exclusion of `KMutex` (src/sync.rs).
use molt_os.Prelude.{
  ℕ, ◌≡◌, ◌≢◌, ◌⊎◌, refl, Bool, true, false, ◌==◌, ==_iff, subst, sym, ◌∙◌, Bool-cases, inl, inr,
}
use molt_os.Sync.{
  Pc, outside, fast, slow, recheck, enqueue, block, asleep, critical, wake, pop, unblock, leave,
  Machine, update, start, Step, run, preempt, Reach, here, after,
}
use molt_os.Sync.Moves.{
  Move, calls, acquires, contends, takes_scheduler, waits, enqueues, sleeps, resumes, unlocks,
  guards, pops_none, pops, wakes, leaves, advance-Move,
}

-- A thread in its critical section holds the lock, and there is at most one.
pub record Exclusive (locked : Bool) (pc : ℕ → Pc) : Type 0 where
  pub holds : (t : ℕ) → pc t ≡ critical → locked ≡ true
  pub unique : (t u : ℕ) → pc t ≡ critical → pc u ≡ critical → t ≡ u

abbrev pub IsExclusive : Machine → Type 0
IsExclusive s = Exclusive s.locked s.pc

pub update-ne {ℓ} :
    {A : Type ℓ} (f : ℕ → A) (t : ℕ) (a b : A) (u : ℕ) → a ≢ b → update f t a u ≡ b → f u ≡ b
update-ne f t a b u ne e = elim (Bool-cases (u == t)) [
  | inl q ↦ let e' : a ≡ b = rw q at e in absurd (ne e')
  | inr q ↦ let e' : f u ≡ b = rw q at e in e'
]

-- What the updated function gives: the new value at `t`, the old one elsewhere.
pub update-cases {ℓ} :
    {A : Type ℓ} (f : ℕ → A) (t : ℕ) (a : A) (u : ℕ)
    → ((u ≡ t) × (update f t a u ≡ a)) ⊎ ((u ≢ t) × (update f t a u ≡ f u))
update-cases f t a u = elim (Bool-cases (u == t)) [
  | inl q ↦ inl ((==_iff u t).0 q, rw q)
  | inr q ↦ inr (λ same. cc ((==_iff u t).1 same), rw q)
]

-- A step to a place that is not critical, with the lock as it was.
Exclusive-goto :
    (l : Bool) (pc : ℕ → Pc) (r : ℕ) (p : Pc)
    → p ≢ critical
    → Exclusive l pc
    → Exclusive l (update pc r p)
Exclusive-goto l pc r p ne v = record {
  holds = λ t h. v.holds t (update-ne pc r p critical t ne h);
  unique =
      λ t u h k. v.unique t u (update-ne pc r p critical t ne h) (update-ne pc r p critical u ne k);
}

-- With the lock free no thread is critical, so one may become so.
Exclusive-acquire :
    (pc : ℕ → Pc) (r : ℕ) → Exclusive false pc → Exclusive true (update pc r critical)
Exclusive-acquire pc r v = record {
  holds = λ t h. refl;
  unique = λ t u h k. mine t h ∙ sym (mine u k);
}
  where
    mine : (t : ℕ) → update pc r critical t ≡ critical → t ≡ r
    mine t h = elim (update-cases pc r critical t) [
      | inl (same, _) ↦ same
      | inr (_, e) ↦ cc (v.holds t (sym e ∙ h))
    ]

-- The critical thread leaves, and releases the lock.
Exclusive-release :
    (l : Bool) (pc : ℕ → Pc) (r : ℕ) (p : Pc)
    → p ≢ critical
    → pc r ≡ critical
    → Exclusive l pc
    → Exclusive false (update pc r p)
Exclusive-release l pc r p ne mine v = record {
  holds = λ t h. absurd (gone t h);
  unique = λ t u h k. absurd (gone t h);
}
  where
    gone : (t : ℕ) → update pc r p t ≡ critical → ⊥
    gone t h = elim (update-cases pc r p t) [
      | inl (_, e) ↦ ne (sym e ∙ h)
      | inr (other, e) ↦ other (v.unique t r (sym e ∙ h) mine)
    ]

Move-IsExclusive : {s s' : Machine} → Move s s' → IsExclusive s → IsExclusive s'
Move-IsExclusive {s} (calls at e) v = rw e (Exclusive-goto s.locked s.pc s.running fast (λ q. cc) v)
Move-IsExclusive {s} (acquires at free e) v =
    rw e (Exclusive-acquire s.pc s.running (subst (λ l. Exclusive l s.pc) free v))
Move-IsExclusive {s} (contends at l e) v =
    rw e (Exclusive-goto s.locked s.pc s.running slow (λ q. cc) v)
Move-IsExclusive {s} (takes_scheduler at e) v =
    rw e (Exclusive-goto s.locked s.pc s.running recheck (λ q. cc) v)
Move-IsExclusive {s} (waits at l e) v =
    rw e (Exclusive-goto s.locked s.pc s.running enqueue (λ q. cc) v)
Move-IsExclusive {s} (enqueues at g e) v =
    rw e (Exclusive-goto s.locked s.pc s.running block (λ q. cc) v)
Move-IsExclusive {s} (sleeps n at b e) v =
    rw e (Exclusive-goto s.locked s.pc s.running asleep (λ q. cc) v)
Move-IsExclusive {s} (resumes at e) v =
    rw e (Exclusive-goto s.locked s.pc s.running fast (λ q. cc) v)
Move-IsExclusive {s} (unlocks at e) v =
    rw e (Exclusive-release s.locked s.pc s.running wake (λ q. cc) at v)
Move-IsExclusive {s} (guards at g e) v =
    rw e (Exclusive-goto s.locked s.pc s.running pop (λ q. cc) v)
Move-IsExclusive {s} (pops_none at w e) v =
    rw e (Exclusive-goto s.locked s.pc s.running leave (λ q. cc) v)
Move-IsExclusive {s} (pops id rest at w e) v =
    rw e (Exclusive-goto s.locked s.pc s.running (unblock id) (λ q. cc) v)
Move-IsExclusive {s} (wakes id at e) v =
    rw e (Exclusive-goto s.locked s.pc s.running leave (λ q. cc) v)
Move-IsExclusive {s} (leaves at e) v =
    rw e (Exclusive-goto s.locked s.pc s.running outside (λ q. cc) v)

Step-IsExclusive : {s s' : Machine} → Step s s' → IsExclusive s → IsExclusive s'
Step-IsExclusive {s} (run n e) v = Move-IsExclusive (advance-Move s n e) v
Step-IsExclusive (preempt n i b e) v = rw e v

start-IsExclusive : (t : ℕ) → IsExclusive (start t)
start-IsExclusive t = record { holds = λ u h. cc; unique = λ u w h k. cc }

-- However the threads interleave, a thread in its critical section holds the lock, and no two
-- threads are in theirs at once.
pub Reach-IsExclusive : (t : ℕ) {s : Machine} → Reach (start t) s → IsExclusive s
Reach-IsExclusive t here = start-IsExclusive t
Reach-IsExclusive t (after r st) = Step-IsExclusive st (Reach-IsExclusive t r)
