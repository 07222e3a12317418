-- ===== src/Sync/Queue.antt =====
-- The queue of `KMutex` (src/sync.rs): who is in it, and who sees to it.
use molt_os.Prelude.{
  ℕ, ◌≡◌, ◌≢◌, ◌⊎◌, refl, Bool, true, false, not, ◌&&◌, ◌||◌, List, [], ◌∷◌, ◌++◌, ◌==◌, arith,
}
use molt_os.Sync.{Pc, outside, enqueue, block, asleep, unblock, leave, Machine}
use molt_os.Sync.Moves.{
  Move, calls, acquires, contends, takes_scheduler, waits, enqueues, sleeps, resumes, unlocks,
  guards, pops_none, pops, wakes, leaves,
}
use molt_os.Sync.Places.{Placed}

abbrev pub mem : ℕ → List ℕ → Bool
mem t [] = false
mem t (x ∷ xs) = t == x || mem t xs

abbrev pub distinct : List ℕ → Bool
distinct [] = true
distinct (x ∷ xs) = not (mem x xs) && distinct xs

pub mem-append : (t : ℕ) (xs ys : List ℕ) → mem t (xs ++ ys) ≡ (mem t xs || mem t ys)
mem-append t [] ys = refl
mem-append t (x ∷ xs) ys = ground (arith, mem-append t xs ys)

distinct-append :
    (xs : List ℕ) (y : ℕ) → distinct (xs ++ (y ∷ [])) ≡ (distinct xs && not (mem y xs))
distinct-append [] y = refl
distinct-append (x ∷ xs) y = ground (arith, mem-append x xs (y ∷ []), distinct-append xs y)

-- The places in `lock` but those between the recheck and the sleep, that of a holder, and those in `drop`
-- up to `unblock_thread`.
abbrev pub has_turn : Pc → Bool
has_turn outside = false
has_turn enqueue = false
has_turn block = false
has_turn leave = false
has_turn p = true

-- Some thread that is not blocked stands at such a place.
abbrev pub Attended : Machine → Type 0
Attended s = (t : ℕ) × (s.blocked t ≡ false) × (has_turn (s.pc t) ≡ true)

-- A blocked thread is in the queue, or the thread that popped it is about to unblock it.
abbrev pub Remembered : Machine → ℕ → Type 0
Remembered s t = (mem t s.waiters ≡ true) ⊎ ((u : ℕ) × (s.pc u ≡ unblock t))

pub record Kept (s : Machine) : Type 0 where
  pub queued : (t : ℕ) → s.blocked t ≡ true → Remembered s t
  pub blocking : (t : ℕ) → s.pc t ≡ block → mem t s.waiters ≡ true
  pub member :
      (t : ℕ)
      → mem t s.waiters ≡ true
      → (s.pc t ≡ block) ⊎ ((s.pc t ≡ asleep) × (s.blocked t ≡ true))
  pub popped :
      (u id : ℕ)
      → s.pc u ≡ unblock id
      → (s.pc id ≡ asleep) × (s.blocked id ≡ true) × (mem id s.waiters ≡ false)
  pub apart : distinct s.waiters ≡ true
  pub attended : s.waiters ≢ [] → Attended s

pub Move-blocking :
    {s s' : Machine}
    → Move s s'
    → Placed s
    → Kept s
    → (t : ℕ) → s'.pc t ≡ block
    → mem t s'.waiters ≡ true
Move-blocking {s} (calls at e) v k t = rw e (λ h. ground (arith, k.blocking t))
Move-blocking {s} (acquires at free e) v k t = rw e (λ h. ground (arith, k.blocking t))
Move-blocking {s} (contends at l e) v k t = rw e (λ h. ground (arith, k.blocking t))
Move-blocking {s} (takes_scheduler at e) v k t = rw e (λ h. ground (arith, k.blocking t))
Move-blocking {s} (waits at l e) v k t = rw e (λ h. ground (arith, k.blocking t))
Move-blocking {s} (enqueues at g e) v k t =
    rw e (λ h. ground (arith, k.blocking t, mem-append t s.waiters (s.running ∷ [])))
Move-blocking {s} (sleeps n at b e) v k t = rw e (λ h. ground (arith, k.blocking t))
Move-blocking {s} (resumes at e) v k t = rw e (λ h. ground (arith, k.blocking t))
Move-blocking {s} (unlocks at e) v k t = rw e (λ h. ground (arith, k.blocking t))
Move-blocking {s} (guards at g e) v k t = rw e (λ h. ground (arith, k.blocking t))
Move-blocking {s} (pops_none at w e) v k t = rw e (λ h. ground (arith, k.blocking t))
Move-blocking {s} (pops id rest at w e) v k t = rw e (λ h. ground (arith, k.blocking t, v.alone t))
Move-blocking {s} (wakes id at e) v k t = rw e (λ h. ground (arith, k.blocking t))
Move-blocking {s} (leaves at e) v k t = rw e (λ h. ground (arith, k.blocking t))

pub Move-member :
    {s s' : Machine}
    → Move s s'
    → Placed s
    → Kept s
    → (t : ℕ) → mem t s'.waiters ≡ true
    → (s'.pc t ≡ block) ⊎ ((s'.pc t ≡ asleep) × (s'.blocked t ≡ true))
Move-member {s} (calls at e) v k t = rw e (λ h. ground (arith, k.member t, v.awake))
Move-member {s} (acquires at free e) v k t = rw e (λ h. ground (arith, k.member t, v.awake))
Move-member {s} (contends at l e) v k t = rw e (λ h. ground (arith, k.member t, v.awake))
Move-member {s} (takes_scheduler at e) v k t = rw e (λ h. ground (arith, k.member t, v.awake))
Move-member {s} (waits at l e) v k t = rw e (λ h. ground (arith, k.member t, v.awake))
Move-member {s} (enqueues at g e) v k t =
    rw e (λ h. ground (arith, k.member t, v.awake, mem-append t s.waiters (s.running ∷ [])))
Move-member {s} (sleeps n at b e) v k t = rw e (λ h. ground (arith, k.member t, v.awake))
Move-member {s} (resumes at e) v k t = rw e (λ h. ground (arith, k.member t, v.awake))
Move-member {s} (unlocks at e) v k t = rw e (λ h. ground (arith, k.member t, v.awake))
Move-member {s} (guards at g e) v k t = rw e (λ h. ground (arith, k.member t, v.awake))
Move-member {s} (pops_none at w e) v k t = rw e (λ h. ground (arith, k.member t, v.awake))
Move-member {s} (pops id rest at w e) v k t = rw e (λ h. ground (arith, k.member t, v.awake))
Move-member {s} (wakes id at e) v k t =
    rw e (λ h. ground (arith, k.member t, k.popped s.running id, v.awake))
Move-member {s} (leaves at e) v k t = rw e (λ h. ground (arith, k.member t, v.awake))

pub Move-popped :
    {s s' : Machine}
    → Move s s'
    → Placed s
    → Kept s
    → (u id : ℕ) → s'.pc u ≡ unblock id
    → (s'.pc id ≡ asleep) × (s'.blocked id ≡ true) × (mem id s'.waiters ≡ false)
Move-popped {s} (calls at e) v k u id = rw e (λ h. ground (arith, k.popped u id, v.awake))
Move-popped {s} (acquires at free e) v k u id = rw e (λ h. ground (arith, k.popped u id, v.awake))
Move-popped {s} (contends at l e) v k u id = rw e (λ h. ground (arith, k.popped u id, v.awake))
Move-popped {s} (takes_scheduler at e) v k u id = rw e (λ h. ground (arith, k.popped u id, v.awake))
Move-popped {s} (waits at l e) v k u id = rw e (λ h. ground (arith, k.popped u id, v.awake))
Move-popped {s} (enqueues at g e) v k u id =
    rw e (λ h. ground (arith, k.popped u id, v.awake, v.guards_it u))
Move-popped {s} (sleeps n at b e) v k u id = rw e (λ h. ground (arith, k.popped u id, v.awake))
Move-popped {s} (resumes at e) v k u id = rw e (λ h. ground (arith, k.popped u id, v.awake))
Move-popped {s} (unlocks at e) v k u id = rw e (λ h. ground (arith, k.popped u id, v.awake))
Move-popped {s} (guards at g e) v k u id = rw e (λ h. ground (arith, k.popped u id, v.awake))
Move-popped {s} (pops_none at w e) v k u id = rw e (λ h. ground (arith, k.popped u id, v.awake))
Move-popped {s} (pops x rest at w e) v k u id = rw e (λ h. ground (
  arith,
  k.popped u id,
  v.awake,
  v.guards_it u,
  v.guards_it s.running,
  k.member id,
  k.apart,
  v.alone id,
))
Move-popped {s} (wakes x at e) v k u id =
    rw e (λ h. ground (arith, k.popped u id, v.awake, v.guards_it u, v.guards_it s.running))
Move-popped {s} (leaves at e) v k u id = rw e (λ h. ground (arith, k.popped u id, v.awake))

pub Move-apart : {s s' : Machine} → Move s s' → Placed s → Kept s → distinct s'.waiters ≡ true
Move-apart {s} (calls at e) v k = rw e (k.apart)
Move-apart {s} (acquires at free e) v k = rw e (k.apart)
Move-apart {s} (contends at l e) v k = rw e (k.apart)
Move-apart {s} (takes_scheduler at e) v k = rw e (k.apart)
Move-apart {s} (waits at l e) v k = rw e (k.apart)
Move-apart {s} (enqueues at g e) v k =
    rw e (ground (arith, k.apart, distinct-append s.waiters s.running, k.member s.running))
Move-apart {s} (sleeps n at b e) v k = rw e (k.apart)
Move-apart {s} (resumes at e) v k = rw e (k.apart)
Move-apart {s} (unlocks at e) v k = rw e (k.apart)
Move-apart {s} (guards at g e) v k = rw e (k.apart)
Move-apart {s} (pops_none at w e) v k = rw e (k.apart)
Move-apart {s} (pops id rest at w e) v k = rw e (ground (arith, k.apart))
Move-apart {s} (wakes id at e) v k = rw e (k.apart)
Move-apart {s} (leaves at e) v k = rw e (k.apart)
