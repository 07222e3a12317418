-- ===== src/Scheduler/Global.antt =====
-- src/thread/scheduler.rs and src/thread/mod.rs: the scheduler behind the global lock, and the two
-- functions that leave a thread through it.
use molt_os.Prelude.{ℕ, ◌+◌, Option, none, some, ◌==◌, ◌||◌, if◌then◌else◌, Checked, ok, ◌>>=◌}
use molt_os.Scheduler.Thread.{Thread}
use molt_os.Scheduler.Eevdf
use molt_os.Scheduler.Eevdf.{EevdfScheduler}
use molt_os.Cpu.{Cpu, rdi, rsi, set, exec, clear_if}
use molt_os.Cpu.Context.{context_switch}

-- `bootstrap_ctx` is the address of the field, whose contents stand in memory.
pub record Scheduler : Type 0 where
  pub eevdf : EevdfScheduler
  pub bootstrap_ctx : ℕ

-- `Scheduler::new`, placed so that its bootstrap context is at an address.
abbrev pub new : ℕ → Scheduler
new bootstrap_ctx = record { eevdf = Eevdf.new; bootstrap_ctx = bootstrap_ctx }

abbrev pub spawn : Scheduler → Thread → Scheduler
spawn s t = record s { eevdf = Eevdf.spawn s.eevdf t }

abbrev pub spawn_with_weight : Scheduler → Thread → ℕ → Scheduler
spawn_with_weight s t weight = record s { eevdf = Eevdf.spawn_with_weight s.eevdf t weight }

abbrev pub len : Scheduler → ℕ
len s = Eevdf.len s.eevdf

abbrev pub current_thread_id : Scheduler → Checked (Option ℕ)
current_thread_id s = Eevdf.current_thread_id s.eevdf

abbrev pub unblock_thread : Scheduler → ℕ → Checked Scheduler
unblock_thread s id = do eevdf ← Eevdf.unblock_thread s.eevdf id; ok (record s { eevdf = eevdf })

abbrev pub tick_prepare : Scheduler → ℕ → Checked (Scheduler × Option (ℕ × ℕ))
tick_prepare s current_tick = do
  (eevdf, switch) ← Eevdf.tick_prepare s.eevdf s.bootstrap_ctx current_tick
  ok (record s { eevdf = eevdf }, switch)

abbrev pub block_current_and_prepare_switch : Scheduler → ℕ → Checked (Scheduler × Option (ℕ × ℕ))
block_current_and_prepare_switch s current_tick = do
  (eevdf, switch) ← Eevdf.block_current_and_prepare_switch s.eevdf s.bootstrap_ctx current_tick
  ok (record s { eevdf = eevdf }, switch)

-- What a pass of `enter_scheduler`'s loop, or a call of `block_and_yield`, does once the scheduler has
-- been asked: run in another thread, stop for a context that cannot be run, or wait with interrupts
-- enabled for there to be one.
pub data Left : Type 0 where
  switched : Cpu → Left
  halted : Left
  waits : Left

-- The call `context_switch(from, to)`; interrupts are off, since the lock was taken and is released
-- without restoring them.
abbrev pub call_switch : ℕ → ℕ → Cpu → Cpu
call_switch from to s =
    exec context_switch
      (record s { registers = set (set s.registers rdi from) rsi to; rflags = clear_if s.rflags })

abbrev pub enter_with : Option (ℕ × ℕ) → Cpu → Left
enter_with none s = waits
enter_with (some (from, to)) s =
    if (to == 0) || (s.memory (to + 0) == 0) then halted else switched (call_switch from to s)

-- One pass of the loop of `enter_scheduler`.
unfoldable pub enter_scheduler : Scheduler → ℕ → Cpu → Checked (Scheduler × Left)
enter_scheduler sched ticks s = do
  (sched', switch) ← tick_prepare sched ticks
  ok (sched', enter_with switch s)

abbrev pub yield_with : Option (ℕ × ℕ) → Cpu → Left
yield_with none s = waits
yield_with (some (from, to)) s = switched (call_switch from to s)

unfoldable pub block_and_yield : Scheduler → ℕ → Cpu → Checked (Scheduler × Left)
block_and_yield sched ticks s = do
  (sched', switch) ← block_current_and_prepare_switch sched ticks
  ok (sched', yield_with switch s)
