-- ===== src/Scheduler/Handover.antt =====
-- src/thread/mod.rs, eevdf.rs and context.rs together: a thread blocks itself and another goes on.
use molt_os.Prelude.{ℕ, ◌≡◌, ◌≢◌, refl, ap, subst, ◌∙◌, Option, some, get_elem?, ok, >>=-eq-ok}
use molt_os.Cpu.{Cpu, rdi, rsi, set, exec, clear_if}
use molt_os.Cpu.Context.{context_at, context_switch}
use molt_os.Cpu.Halves.{Saved}
use molt_os.Cpu.Entered.{CanEnter, Entered, context_switch-Entered, context_switch-Saved}
use molt_os.Scheduler.Thread.{Thread, context_ptr}
use molt_os.Scheduler.Eevdf.{EevdfScheduler, block_current}
use molt_os.Scheduler.Eevdf
use molt_os.Scheduler.Eevdf.Invariant.{IsValid, block_current-IsValid}
use molt_os.Scheduler.Eevdf.Tick.{
  Outcome, no_threads, all_blocked, keep, switch, SavedIn, tick_prepare-Outcome,
}
use molt_os.Scheduler.Eevdf.Switch.{Runs}
use molt_os.Scheduler.Eevdf.Blocking.{
  IsBlockedAt, block_current-IsBlockedAt, block_current-threads,
  block_current_and_prepare_switch-leaves,
}
use molt_os.Scheduler.Global.{
  Scheduler, block_current_and_prepare_switch, switched, block_and_yield,
}

-- The machine at the call of `context_switch`.
abbrev pub called : ℕ → ℕ → Cpu → Cpu
called from to s = record s {
  registers = set (set s.registers rdi from) rsi to;
  rflags = clear_if s.rflags;
}

Outcome-SavedIn :
    (s : EevdfScheduler) (b tick from to : ℕ) {s' : EevdfScheduler} {r : Option (ℕ × ℕ)}
    → Outcome s b tick s' r
    → r ≡ some (from, to)
    → SavedIn s b s.current from
Outcome-SavedIn s b tick f g (no_threads _ _) e = cc
Outcome-SavedIn s b tick f g (all_blocked _ _) e = cc
Outcome-SavedIn s b tick f g (keep _ _ _ _ _ _) e = cc
Outcome-SavedIn s b tick f g (switch a k from t c h saved found same) e =
    let it : from ≡ f = cc in subst (SavedIn s b s.current) it saved

-- The context that is saved to is that of the thread that blocks.
saves_current :
    (s : EevdfScheduler) (b tick p from to : ℕ) {s' : EevdfScheduler}
    → IsValid s
    → s.current ≡ some p
    → Eevdf.block_current_and_prepare_switch s b tick ≡ ok (s', some (from, to))
    → (t : Thread) × (get_elem? s.threads p ≡ some t) × (from ≡ context_ptr t)
unfolding Eevdf.block_current_and_prepare_switch
saves_current s b tick p from to v here e =
    let (a, ea, e1) = >>=-eq-ok (block_current s) _ e in
    let w = block_current-IsValid s v ea in
    let still = (block_current-IsBlockedAt s p here ea).0 in
    let saved = Outcome-SavedIn a b tick from to (tick_prepare-Outcome a b tick w e1) refl in
    let (t, found, it) = subst (λ o. SavedIn a b o from) still saved in
    (t, subst (λ ts. get_elem? ts p ≡ some t) (block_current-threads s ea) found, it)

-- Where a thread of a valid scheduler blocks itself and the scheduler answers with a switch to a
-- context that can be entered, `block_and_yield` hands the processor over: the machine goes on with
-- the registers, the stack, the address and the flags of that context, interrupts enabled; it is the
-- context of the thread that is now current, which is not blocked; and the thread that called is
-- blocked, is not current, and its own context holds what a return from the call needs.
pub block_and_yield-Entered :
    (s : Scheduler) (tick p from to : ℕ) (cpu : Cpu) {s' : Scheduler}
    → IsValid s.eevdf
    → s.eevdf.current ≡ some p
    → block_current_and_prepare_switch s tick ≡ ok (s', some (from, to))
    → CanEnter (called from to cpu)
    → (u : Cpu) × (block_and_yield s tick cpu ≡ ok (s', switched u))
      × Entered cpu.memory to u
      × Runs s'.eevdf to
      × (s'.eevdf.current ≢ some p)
      × IsBlockedAt s'.eevdf p
      × (t : Thread) × (get_elem? s.eevdf.threads p ≡ some t)
      × Saved (called from to cpu) (context_at u.memory (context_ptr t))
unfolding block_and_yield
block_and_yield-Entered s tick p from to cpu {s'} v here e enter =
    let (r, er, e1) =
      >>=-eq-ok (Eevdf.block_current_and_prepare_switch s.eevdf s.bootstrap_ctx tick) _ e in
    let sched : r.0 ≡ s'.eevdf = cc in
    let decided : r.1 ≡ some (from, to) = cc in
    let er' : Eevdf.block_current_and_prepare_switch s.eevdf s.bootstrap_ctx tick
        ≡ ok (s'.eevdf, some (from, to)) =
      er ∙ ap (λ x. ok x) (cc) in
    let (runs, left, blocked) =
      block_current_and_prepare_switch-leaves s.eevdf s.bootstrap_ctx tick p from to v here er' in
    let (t, found, it) = saves_current s.eevdf s.bootstrap_ctx tick p from to v here er' in
    let call = called from to cpu in
    let u : Cpu = exec context_switch call in
    (
      u,
      rw e refl,
      context_switch-Entered call enter,
      runs,
      left,
      blocked,
      t,
      found,
      subst (λ a. Saved call (context_at u.memory a)) it (context_switch-Saved call enter.switch),
    )
