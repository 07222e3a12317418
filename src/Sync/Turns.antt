-- ===== src/Sync/Turns.antt =====
-- `KMutex` (src/sync.rs): what each step keeps of the blocked threads and of those on the move.
use molt_os.Prelude.{ℕ, ◌≡◌, ◌≢◌, inl, inr, true, false, [], ◌∷◌, ◌==◌, arith, sym, ◌∙◌, Bool-cases}
use molt_os.Sync.{asleep, critical, Machine}
use molt_os.Sync.Moves.{
  Move, calls, acquires, contends, takes_scheduler, waits, enqueues, sleeps, resumes, unlocks,
  guards, pops_none, pops, wakes, leaves,
}
use molt_os.Sync.Places.{Placed}
use molt_os.Sync.Queue.{mem-append, Attended, Remembered, Kept}

pub Move-queued :
    {s s' : Machine}
    → Move s s'
    → Placed s
    → Kept s
    → (t : ℕ) → s'.blocked t ≡ true
    → Remembered s' t
Move-queued {s} (calls at e) v k t = rw e (λ h. elim (k.queued t h) [
  | inl m ↦ inl (ground (arith, m))
  | inr (u, p) ↦ inr (u, ground arith)
])
Move-queued {s} (acquires at free e) v k t = rw e (λ h. elim (k.queued t h) [
  | inl m ↦ inl (ground (arith, m))
  | inr (u, p) ↦ inr (u, ground arith)
])
Move-queued {s} (contends at l e) v k t = rw e (λ h. elim (k.queued t h) [
  | inl m ↦ inl (ground (arith, m))
  | inr (u, p) ↦ inr (u, ground arith)
])
Move-queued {s} (takes_scheduler at e) v k t = rw e (λ h. elim (k.queued t h) [
  | inl m ↦ inl (ground (arith, m))
  | inr (u, p) ↦ inr (u, ground arith)
])
Move-queued {s} (waits at l e) v k t = rw e (λ h. elim (k.queued t h) [
  | inl m ↦ inl (ground (arith, m))
  | inr (u, p) ↦ inr (u, ground arith)
])
Move-queued {s} (enqueues at g e) v k t = rw e (λ h. elim (k.queued t h) [
  | inl m ↦ inl (ground (arith, m, mem-append t s.waiters (s.running ∷ [])))
  | inr (u, p) ↦ inr (u, ground arith)
])
Move-queued {s} (sleeps n at b e) v k t = rw e (λ h. elim (Bool-cases (t == s.running)) [
  | inl mine ↦ inl (ground (arith, k.blocking t))
  | inr other ↦ elim (k.queued t (ground arith)) [
    | inl m ↦ inl m
    | inr (u, p) ↦ inr (u, ground arith)
  ]
])
Move-queued {s} (resumes at e) v k t = rw e (λ h. elim (k.queued t h) [
  | inl m ↦ inl (ground (arith, m))
  | inr (u, p) ↦ inr (u, ground arith)
])
Move-queued {s} (unlocks at e) v k t = rw e (λ h. elim (k.queued t h) [
  | inl m ↦ inl (ground (arith, m))
  | inr (u, p) ↦ inr (u, ground arith)
])
Move-queued {s} (guards at g e) v k t = rw e (λ h. elim (k.queued t h) [
  | inl m ↦ inl (ground (arith, m))
  | inr (u, p) ↦ inr (u, ground arith)
])
Move-queued {s} (pops_none at w e) v k t = rw e (λ h. elim (k.queued t h) [
  | inl m ↦ inl (ground (arith, m))
  | inr (u, p) ↦ inr (u, ground arith)
])
Move-queued {s} (pops id rest at w e) v k t = rw e (λ h. elim (k.queued t h) [
  | inl m ↦ elim (Bool-cases (t == id)) [
    | inl mine ↦ inr (s.running, ground arith)
    | inr other ↦ inl (ground arith)
  ]
  | inr (u, p) ↦ inr (u, ground arith)
])
Move-queued {s} (wakes id at e) v k t = rw e (λ h. elim (k.queued t (ground arith)) [
  | inl m ↦ inl m
  | inr (u, p) ↦ inr (u, ground (arith, v.guards_it u, v.guards_it s.running))
])
Move-queued {s} (leaves at e) v k t = rw e (λ h. elim (k.queued t h) [
  | inl m ↦ inl (ground (arith, m))
  | inr (u, p) ↦ inr (u, ground arith)
])

critical-ne-asleep : critical ≢ asleep
critical-ne-asleep e = cc

-- A thread that holds the mutex is not blocked.
awake_of : {s : Machine} → Placed s → (t : ℕ) → s.pc t ≡ critical → s.blocked t ≡ false
awake_of {s} v t c = elim (Bool-cases (s.blocked t)) [
  | inl q ↦ absurd (critical-ne-asleep (sym c ∙ v.sleeping t q))
  | inr q ↦ q
]

pub Move-Attended : {s s' : Machine} → Move s s' → Placed s → Kept s → s'.waiters ≢ [] → Attended s'
Move-Attended {s} (calls at e) v k =
    rw e
      (λ h. let (t, free, turn) = k.attended h in (t, ground (arith, free), ground (arith, turn)))
Move-Attended {s} (acquires at free e) v k = rw e (λ h. (s.running, v.awake, ground arith))
Move-Attended {s} (contends at l e) v k =
    rw e
      (λ h. let (t, free, turn) = k.attended h in (t, ground (arith, free), ground (arith, turn)))
Move-Attended {s} (takes_scheduler at e) v k =
    rw e
      (λ h. let (t, free, turn) = k.attended h in (t, ground (arith, free), ground (arith, turn)))
Move-Attended {s} (waits at l e) v k =
    rw e (λ h. let (t, c) = v.held l in (t, awake_of v t c, ground (arith, c)))
Move-Attended {s} (enqueues at g e) v k =
    rw e
      (λ h. let (t, c) = v.held (v.waiting s.running at) in (t, awake_of v t c, ground (arith, c)))
Move-Attended {s} (sleeps n at b e) v k =
    rw e
      (λ h. let (t, free, turn) = k.attended h in (t, ground (arith, free), ground (arith, turn)))
Move-Attended {s} (resumes at e) v k = rw e (λ h. (s.running, v.awake, ground arith))
Move-Attended {s} (unlocks at e) v k =
    rw e
      (λ h. let (t, free, turn) = k.attended h in (t, ground (arith, free), ground (arith, turn)))
Move-Attended {s} (guards at g e) v k =
    rw e
      (λ h. let (t, free, turn) = k.attended h in (t, ground (arith, free), ground (arith, turn)))
Move-Attended {s} (pops_none at w e) v k = rw e (λ h. absurd (h w))
Move-Attended {s} (pops id rest at w e) v k = rw e (λ h. (s.running, v.awake, ground arith))
Move-Attended {s} (wakes id at e) v k =
    rw e (λ h. (id, ground arith, ground (arith, k.popped s.running id)))
Move-Attended {s} (leaves at e) v k =
    rw e
      (λ h. let (t, free, turn) = k.attended h in (t, ground (arith, free), ground (arith, turn)))
