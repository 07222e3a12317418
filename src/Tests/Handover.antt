-- ===== src/Tests/Handover.antt =====
-- A thread that blocks itself, at concrete states of the scheduler and of the machine.
use molt_os.Prelude.{◌≡◌, ◌≢◌, refl, ◌==◌, if◌then◌else◌, some, get_elem?, ok, arith}
use molt_os.Cpu.{Cpu, number}
use molt_os.Cpu.Context.{context_at}
use molt_os.Cpu.Halves.{Saved}
use molt_os.Cpu.Entered.{CanEnter, Entered}
use molt_os.Scheduler.Thread.{Thread, context_ptr}
use molt_os.Scheduler.Eevdf.Switch.{Runs}
use molt_os.Scheduler.Eevdf.Blocking.{IsBlockedAt}
use molt_os.Scheduler.Global.{Scheduler, switched, block_and_yield}
use molt_os.Scheduler.Handover.{called, block_and_yield-Entered}
use molt_os.Tests.Scheduling.{started, started-IsValid, waiting, player_waits}

abbrev before : Scheduler
before = record { eevdf = started; bootstrap_ctx = 7 }

abbrev after : Scheduler
after = record { eevdf = waiting; bootstrap_ctx = 7 }

-- The player runs on the stack at 9000; the shell's context at 1000 has its stack at 5000.
abbrev calling : Cpu
calling = record {
  registers = λ r. if number r == 4 then 9000 else 0;
  rip = 0;
  rflags = 514;
  memory = λ a. if a == 1000 then 5000 else if a == 5000 then 77 else 0;
}

shell-CanEnter : CanEnter (called 2000 1000 calling)
shell-CanEnter = record {
  switch = record {
    yields = record {
      room = omega arith;
      in_word = omega arith;
      flags_apart = λ k lt e. omega arith;
      return_apart = λ k lt e. omega arith;
    };
    stack = record { room = omega arith; in_word = omega arith; apart = λ k lt e. omega arith };
    contexts_apart = λ k lt e. omega arith;
    saved_apart = λ e. omega arith;
    old_apart = λ k lt e. omega arith;
    return_apart = λ e. omega arith;
  };
  contexts_apart = λ k lt j less e. omega arith;
  saved_apart = λ k lt e. omega arith;
  entry_apart = λ k lt e. omega arith;
  entry_saved_apart = λ e. omega arith;
}

block_and_yield-Entered_example :
    (u : Cpu) × (block_and_yield before 3 calling ≡ ok (after, switched u))
    × Entered calling.memory 1000 u
    × Runs waiting 1000
    × (waiting.current ≢ some 1)
    × IsBlockedAt waiting 1
    × (t : Thread) × (get_elem? started.threads 1 ≡ some t)
    × Saved (called 2000 1000 calling) (context_at u.memory (context_ptr t))
block_and_yield-Entered_example =
    block_and_yield-Entered before 3 1 2000 1000 calling started-IsValid refl (rw player_waits refl)
      shell-CanEnter
