-- ===== src/Scheduler/RoundRobin/Rotation.antt =====
-- round_robin.rs: every tick moves to the next thread, so each of `n` threads runs once in `n` ticks.
use native.Mathlib.Nat.{add-zero, mod-lt, mod-eq_of_lt, mod-add-mod}
use molt_os.Prelude.{
  ℕ, zero, suc, ◌+◌, ◌%◌, ◌<◌, ◌≡◌, refl, sym, ap, Option, none, some, List, [], ◌∷◌, length,
  get_elem?, get_elem?_in_range, Checked, ok, ◌>>=◌, ◌==◌, false, InRange, arith,
}
use molt_os.Scheduler.Thread.{Thread, context_ptr}
use molt_os.Scheduler.RoundRobin.{RoundRobinScheduler, next_of, from_context, rotate, tick_prepare}

-- The current index, where there is one, is a thread's.
abbrev pub IsValid : RoundRobinScheduler → Type 0
IsValid s = InRange s.current (length s.threads)

-- What a tick returns when there are threads.
pub record Rotated (s : RoundRobinScheduler) (bootstrap_ctx : ℕ) (s' : RoundRobinScheduler)
    (from_ctx to_ctx : ℕ) : Type 0 where
  pub thread : Thread
  pub found : get_elem? s.threads (next_of s.current (length s.threads)) ≡ some thread
  pub loads : to_ctx ≡ context_ptr thread
  pub saves : from_context s bootstrap_ctx s.current ≡ ok from_ctx
  pub moved : s' ≡ record s { current = some (next_of s.current (length s.threads)) }

next_of-lt : (o : Option ℕ) (n : ℕ) → 0 < n → next_of o n < n
next_of-lt none n h = h
next_of-lt (some i) n h = mod-lt (i + 1) h

from_context-total :
    (s : RoundRobinScheduler) (b : ℕ) (o : Option ℕ)
    → InRange o (length s.threads)
    → (from_ctx : ℕ) × (from_context s b o ≡ ok from_ctx)
unfolding from_context
from_context-total s b none v = (b, refl)
from_context-total s b (some p) v =
    let (t, et) = get_elem?_in_range s.threads p v in (context_ptr t, rw et)

-- With threads, a tick does not panic: it saves the context of the current thread (on the first tick
-- the bootstrap's), loads that of the next in circular order, and makes that thread current.
pub tick_prepare-rotates :
    (s : RoundRobinScheduler) (bootstrap_ctx tick : ℕ)
    → IsValid s
    → 0 < length s.threads
    → (s' : RoundRobinScheduler) × (from_ctx : ℕ) × (to_ctx : ℕ) × (tick_prepare s bootstrap_ctx
          tick
        ≡ ok (s', some (from_ctx, to_ctx)))
      × Rotated s bootstrap_ctx s' from_ctx to_ctx
unfolding tick_prepare rotate
tick_prepare-rotates s b tick v h =
    let n : ℕ = length s.threads in
    let (from_ctx, ef) = from_context-total s b s.current v in
    let (t, et) = get_elem?_in_range s.threads (next_of s.current n) (next_of-lt s.current n h) in
    let some_threads : (length s.threads == 0) ≡ false = ground arith in
    (
      record s { current = some (next_of s.current n) },
      from_ctx,
      context_ptr t,
      rw (some_threads, ef, et),
      record { thread = t; found = et; loads = refl; saves = ef; moved = refl },
    )

-- The scheduler after `k` ticks at the times that `clock` gives, in a run that does not panic, and the
-- switches that they return.
pub ticks :
    ℕ → RoundRobinScheduler → ℕ → (ℕ → ℕ) → Checked (RoundRobinScheduler × List (Option (ℕ × ℕ)))
ticks zero s b clock = ok (s, [])
ticks (suc k) s b clock = do
  (s', switch) ← tick_prepare s b (clock k)
  (s'', switches) ← ticks k s' b clock
  ok (s'', switch ∷ switches)

module _ (ts : List Thread) where
  -- The scheduler of these threads with the given current index.
  abbrev pub running : Option ℕ → RoundRobinScheduler
  running o = record { threads = ts; current = o }

  -- The switches go round: the first saves in `from` and loads the context of thread `i`, and each
  -- later one saves where the one before it loaded from and loads that of the next thread.
  pub data GoRound : ℕ → ℕ → List (Option (ℕ × ℕ)) → Type 0 where
    done : {from i : ℕ} → GoRound from i []
    turn :
        {from i saved to : ℕ} {switches : List (Option (ℕ × ℕ))} (thread : Thread)
        → saved ≡ from
        → get_elem? ts (i % length ts) ≡ some thread
        → to ≡ context_ptr thread
        → GoRound to (suc i) switches
        → GoRound from i (some (saved, to) ∷ switches)

  tick_prepare-running :
      (o : Option ℕ) (b tick : ℕ)
      → InRange o (length ts)
      → 0 < length ts
      → (from_ctx : ℕ) × (thread : Thread) × (tick_prepare (running o) b tick
          ≡ ok (running (some (next_of o (length ts))), some (from_ctx, context_ptr thread)))
        × (get_elem? ts (next_of o (length ts)) ≡ some thread)
        × (from_context (running o) b o ≡ ok from_ctx)
  tick_prepare-running o b tick v h =
      let (s', from_ctx, to_ctx, e, r) = tick_prepare-rotates (running o) b tick v h in
      (from_ctx, r.thread, rw (← r.moved, ← r.loads) e, r.found, r.saves)

  from_context-some :
      (i b : ℕ) (thread : Thread)
      → get_elem? ts i ≡ some thread
      → from_context (running (some i)) b (some i) ≡ ok (context_ptr thread)
  unfolding from_context
  from_context-some i b thread e = rw e

  ticks-running :
      (k i b : ℕ) (clock : ℕ → ℕ) (thread : Thread)
      → i < length ts
      → get_elem? ts i ≡ some thread
      → (n : ℕ) → n % length ts ≡ i
      → (switches : List (Option (ℕ × ℕ))) × (ticks k (running (some i)) b clock
          ≡ ok (running (some ((n + k) % length ts)), switches))
        × (length switches ≡ k)
        × GoRound (context_ptr thread) (suc n) switches
  unfolding ticks
  ticks-running zero i b clock thread h at n e =
      let same : (n + 0) % length ts ≡ i = rw (add-zero) e in ([], rw same, refl, done)
  ticks-running (suc k) i b clock thread h at n e =
      let (from_ctx, next, ticked, found, saves) =
        tick_prepare-running (some i) b (clock k) h (omega arith) in
      let mine : from_ctx ≡ context_ptr thread = cc (from_context-some i b thread at) in
      let step : (i + 1) % length ts ≡ suc n % length ts =
        rw (← e, mod-add-mod) (ap (λ x. x % length ts) (omega arith)) in
      let (switches, rest, size, round) =
        ticks-running k ((i + 1) % length ts) b clock next (mod-lt (i + 1) (omega arith)) found
          (suc n) (sym step) in
      let index : (suc n + k) % length ts ≡ (n + suc k) % length ts =
        ap (λ x. x % length ts) (omega arith) in
      (
        some (from_ctx, context_ptr next) ∷ switches,
        rw (ticked, rest, index),
        ap suc size,
        turn next mine (rw (← step) found) refl round,
      )

  -- From the bootstrap, `k + 1` ticks lead to thread `k % n`, whatever the clock, and never panic.
  -- They return as many switches, which go round from the bootstrap's context and thread 0: in `n`
  -- ticks every one of `n` threads is switched to.
  pub ticks-rotate :
      (k bootstrap_ctx : ℕ) (clock : ℕ → ℕ)
      → 0 < length ts
      → (switches : List (Option (ℕ × ℕ))) × (ticks (suc k) (running none) bootstrap_ctx clock
          ≡ ok (running (some (k % length ts)), switches))
        × (length switches ≡ suc k)
        × GoRound bootstrap_ctx 0 switches
  unfolding ticks from_context
  ticks-rotate k b clock h =
      let (from_ctx, next, ticked, found, saves) = tick_prepare-running none b (clock k) tt h in
      let first : 0 % length ts ≡ 0 = mod-eq_of_lt h in
      let here : from_ctx ≡ b = cc saves in
      let index : (0 + k) % length ts ≡ k % length ts = ap (λ x. x % length ts) (omega arith) in
      let (switches, rest, size, round) = ticks-running k 0 b clock next h found 0 first in
      (
        some (from_ctx, context_ptr next) ∷ switches,
        rw (ticked, rest, index),
        ap suc size,
        turn next here (rw first found) refl round,
      )
