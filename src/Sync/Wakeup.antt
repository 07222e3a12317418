-- ===== src/Sync/Wakeup.antt =====
-- No thread that waits for `KMutex` (src/sync.rs) is forgotten, whatever the interleaving.
use molt_os.Prelude.{ℕ, ◌≡◌, ◌≢◌, refl, true, []}
use molt_os.Sync.{asleep, Machine, start, Step, run, preempt, Reach, here, after}
use molt_os.Sync.Moves.{Move, advance-Move}
use molt_os.Sync.Places.{Placed, Reach-Placed}
use molt_os.Sync.Queue.{
  Attended, Remembered, Kept, Move-blocking, Move-member, Move-popped, Move-apart,
}
use molt_os.Sync.Turns.{Move-queued, Move-Attended}

Move-Kept : {s s' : Machine} → Move s s' → Placed s → Kept s → Kept s'
Move-Kept m v k = record {
  queued = Move-queued m v k;
  blocking = Move-blocking m v k;
  member = Move-member m v k;
  popped = Move-popped m v k;
  apart = Move-apart m v k;
  attended = Move-Attended m v k;
}

Step-Kept : {s s' : Machine} → Step s s' → Placed s → Kept s → Kept s'
Step-Kept {s} (run n e) v k = Move-Kept (advance-Move s n e) v k
Step-Kept (preempt n on free e) v k = rw e (record {
  queued = k.queued;
  blocking = k.blocking;
  member = k.member;
  popped = k.popped;
  apart = k.apart;
  attended = k.attended;
})

start-Kept : (t : ℕ) → Kept (start t)
start-Kept t = record {
  queued = λ u h. cc;
  blocking = λ u h. cc;
  member = λ u h. cc;
  popped = λ u id h. cc;
  apart = refl;
  attended = λ h. absurd (h refl);
}

Reach-Kept : (t : ℕ) {s : Machine} → Reach (start t) s → Kept s
Reach-Kept t here = start-Kept t
Reach-Kept t (after r st) = Step-Kept st (Reach-Placed t r) (Reach-Kept t r)

-- However the threads interleave: a blocked thread is asleep in `lock`, and it is in the queue, or the
-- thread that popped it stands before its `unblock_thread`; and while the queue is not empty, a thread
-- that is not blocked stands in `lock`, but not between its recheck and its sleep, or holds the mutex,
-- or stands in `drop`, but not after its `unblock_thread`.
pub Reach-Remembers :
    (t : ℕ) {s : Machine}
    → Reach (start t) s
    → ((u : ℕ) → s.blocked u ≡ true → (s.pc u ≡ asleep) × Remembered s u)
      × (s.waiters ≢ [] → Attended s)
Reach-Remembers t r =
    let k = Reach-Kept t r in (λ u h. ((Reach-Placed t r).sleeping u h, k.queued u h), k.attended)
